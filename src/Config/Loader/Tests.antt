-- ===== src/Config/Loader/Tests.antt =====
-- Documents of a JSON library that keeps a value for each key.
use Prim.Native.String.{String}
use v2_engine.Common.{ℕ, ◌≡◌, Bool, true, Option, none, some, List, [], ◌∷◌, refl, map}
use v2_engine.Common.Maps.{AssocMap, lookup, string_key}
use v2_engine.Config.{default_config}
use v2_engine.Config.Loader.{
  Setting, int_at, bool_at, text_at, key_of, JsonLib, holds, load_from_file,
}
use v2_engine.Config.Loader.Loaded.{
  ◌also◌, Content, int, bool, text, described, overlay, fits, all_fit, load_from_file-described,
}
use v2_engine.Config.Loader.Stops.{Agree, Lacks, Unfit, load_from_file-stops}

abbrev as_int : Content → Option ℕ
as_int (int n) = some n
as_int _ = none

abbrev as_bool : Content → Option Bool
as_bool (bool b) = some b
as_bool _ = none

abbrev as_text : Content → Option String
as_text (text t) = some t
as_text _ = none

abbrev plain : JsonLib
plain = record {
  Value = Content;
  Document = AssocMap String Content;
  find = lookup;
  get_int = as_int;
  get_bool = as_bool;
  get_text = as_text;
}

abbrev two_keys : AssocMap String Content
two_keys = ("enable_monitor", bool true) ∷ ("worker_count", int 8) ∷ []

load_from_file-described_example :
    described (load_from_file plain 4 (holds two_keys))
    ≡ map (overlay plain two_keys) (described (default_config 4))
unfolding lookup all_fit fits
load_from_file-described_example = load_from_file-described plain two_keys 4 refl

loaded :
    load_from_file plain 4 (holds two_keys)
    ≡ record (default_config 4) { worker_count = 8; enable_monitor = true }
unfolding load_from_file default_config lookup
loaded = refl

-- The settings before the last one.
abbrev before : List Setting
before =
    int_at "log_level" (λ x c. record c { log_level = x })
    ∷ int_at "worker_count" (λ x c. record c { worker_count = x })
    ∷ int_at "worker_max_batch" (λ x c. record c { worker_max_batch = x })
    ∷ int_at "mainloop_sleep_ms" (λ x c. record c { main_loop_sleep_ms = x })
    ∷ int_at "busy_steal_interval_us" (λ x c. record c { busy_steal_interval_us = x })
    ∷ int_at "idle_steal_interval_us" (λ x c. record c { idle_steal_interval_us = x })
    ∷ int_at "park_spin_ns" (λ x c. record c { park_spin_ns = x })
    ∷ int_at "token_grace_ns" (λ x c. record c { token_grace_ns = x })
    ∷ int_at "default_mailbox_size" (λ x c. record c { default_mailbox_size = x })
    ∷ int_at "dispatcher_queue_capacity" (λ x c. record c { dispatcher_queue_capacity = x })
    ∷ int_at "dispatcher_high_watermark" (λ x c. record c { dispatcher_high_watermark = x })
    ∷ int_at "supervisor_max_restarts" (λ x c. record c { supervisor_max_restarts = x })
    ∷ int_at "supervisor_default_strategy" (λ x c. record c { supervisor_default_strategy = x })
    ∷ int_at "dead_letter_queue_capacity" (λ x c. record c { dead_letter_queue_capacity = x })
    ∷ int_at "log_flush_buffer_size" (λ x c. record c { log_flush_buffer_size = x })
    ∷ int_at "memory_slab_size" (λ x c. record c { memory_slab_size = x })
    ∷ int_at "memory_max_pool_alloc_size" (λ x c. record c { memory_max_pool_alloc_size = x })
    ∷ int_at "memory_max_pools" (λ x c. record c { memory_max_pools = x })
    ∷ int_at "memory_tls_batch_size" (λ x c. record c { memory_tls_batch_size = x })
    ∷ int_at "message_inline_buffer_size" (λ x c. record c { message_inline_buffer_size = x })
    ∷ bool_at "enable_tick" (λ x c. record c { enable_tick = x })
    ∷ int_at "tick_interval_ms" (λ x c. record c { tick_interval_ms = x })
    ∷ bool_at "enable_monitor" (λ x c. record c { enable_monitor = x })
    ∷ text_at "monitor_socket_path" (λ x c. record c { monitor_socket_path = x })
    ∷ int_at "monitor_poll_interval_ms" (λ x c. record c { monitor_poll_interval_ms = x })
    ∷ int_at "monitor_recv_buffer_size" (λ x c. record c { monitor_recv_buffer_size = x })
    ∷ int_at "monitor_backlog" (λ x c. record c { monitor_backlog = x })
    ∷ bool_at "enable_device_manager" (λ x c. record c { enable_device_manager = x })
    ∷ bool_at "enable_metrics" (λ x c. record c { enable_metrics = x })
    ∷ int_at "epoll_max_events" (λ x c. record c { epoll_max_events = x })
    ∷ int_at "epoll_wait_timeout_ms" (λ x c. record c { epoll_wait_timeout_ms = x })
    ∷ bool_at "enable_ipc_server" (λ x c. record c { enable_ipc_server = x })
    ∷ text_at "ipc_socket_path" (λ x c. record c { ipc_socket_path = x })
    ∷ int_at "ipc_recv_buffer_size" (λ x c. record c { ipc_recv_buffer_size = x })
    ∷ int_at "uds_backlog" (λ x c. record c { uds_backlog = x })
    ∷ bool_at "enable_dbus" (λ x c. record c { enable_dbus = x })
    ∷ text_at "dbus_bus_name" (λ x c. record c { dbus_bus_name = x })
    ∷ text_at "dbus_object_path" (λ x c. record c { dbus_object_path = x })
    ∷ text_at "dbus_interface_name" (λ x c. record c { dbus_interface_name = x })
    ∷ []

-- The switch of the network manager, the last key, is a text.
load_from_file-stops_example :
    load_from_file plain 4
      (holds (("worker_count", int 8) ∷ ("enable_network_manager", text "yes") ∷ []))
    ≡ load_from_file plain 4 (holds (("worker_count", int 8) ∷ []))
unfolding lookup Agree Lacks Unfit key_of
load_from_file-stops_example =
    load_from_file-stops plain 4
      (("worker_count", int 8) ∷ ("enable_network_manager", text "yes") ∷ [])
      (("worker_count", int 8) ∷ []) before []
      (bool_at "enable_network_manager" (λ x c. record c { enable_network_manager = x }))
      (text "yes") refl refl refl
      (refl also refl also refl also refl also refl also refl also refl also refl also refl
        also refl also refl also refl also refl also refl also refl also refl also refl also refl
        also refl also refl also refl also refl also refl also refl also refl also refl also refl
        also refl also refl also refl also refl also refl also refl also refl also refl also refl
        also refl also refl also refl also tt)
      (refl, tt)
