-- ===== src/Config/Loader.antt =====
-- RuntimeConfig::loadFromFile of src/infra/config/json_config_loader.cpp. The JSON library is a
-- parameter: how a document finds the value of a key, and the conversions, where `none` is an exception.
use Prim.Native.String.{String}
pub mod Loaded
pub mod Stops
mod Tests
use mathlib.Core.Option
use v2_engine.Common.{ℕ, Bool, Option, none, some, List, [], ◌∷◌}
use v2_engine.Config.{RuntimeConfig, default_config}

-- An assignment to a field from the value of a key, converted to the type of the field.
pub data Setting : Type 0 where
  int_at : String → (ℕ → RuntimeConfig → RuntimeConfig) → Setting
  bool_at : String → (Bool → RuntimeConfig → RuntimeConfig) → Setting
  text_at : String → (String → RuntimeConfig → RuntimeConfig) → Setting

-- The assignments in their order.
abbrev pub settings : List Setting
settings =
    int_at "log_level" (λ x c. record c { log_level = x })
    ∷ int_at "worker_count" (λ x c. record c { worker_count = x })
    ∷ int_at "worker_max_batch" (λ x c. record c { worker_max_batch = x })
    ∷ int_at "mainloop_sleep_ms" (λ x c. record c { main_loop_sleep_ms = x })
    ∷ int_at "busy_steal_interval_us" (λ x c. record c { busy_steal_interval_us = x })
    ∷ int_at "idle_steal_interval_us" (λ x c. record c { idle_steal_interval_us = x })
    ∷ int_at "park_spin_ns" (λ x c. record c { park_spin_ns = x })
    ∷ int_at "token_grace_ns" (λ x c. record c { token_grace_ns = x })
    ∷ int_at "default_mailbox_size" (λ x c. record c { default_mailbox_size = x })
    ∷ int_at "dispatcher_queue_capacity" (λ x c. record c { dispatcher_queue_capacity = x })
    ∷ int_at "dispatcher_high_watermark" (λ x c. record c { dispatcher_high_watermark = x })
    ∷ int_at "supervisor_max_restarts" (λ x c. record c { supervisor_max_restarts = x })
    ∷ int_at "supervisor_default_strategy" (λ x c. record c { supervisor_default_strategy = x })
    ∷ int_at "dead_letter_queue_capacity" (λ x c. record c { dead_letter_queue_capacity = x })
    ∷ int_at "log_flush_buffer_size" (λ x c. record c { log_flush_buffer_size = x })
    ∷ int_at "memory_slab_size" (λ x c. record c { memory_slab_size = x })
    ∷ int_at "memory_max_pool_alloc_size" (λ x c. record c { memory_max_pool_alloc_size = x })
    ∷ int_at "memory_max_pools" (λ x c. record c { memory_max_pools = x })
    ∷ int_at "memory_tls_batch_size" (λ x c. record c { memory_tls_batch_size = x })
    ∷ int_at "message_inline_buffer_size" (λ x c. record c { message_inline_buffer_size = x })
    ∷ bool_at "enable_tick" (λ x c. record c { enable_tick = x })
    ∷ int_at "tick_interval_ms" (λ x c. record c { tick_interval_ms = x })
    ∷ bool_at "enable_monitor" (λ x c. record c { enable_monitor = x })
    ∷ text_at "monitor_socket_path" (λ x c. record c { monitor_socket_path = x })
    ∷ int_at "monitor_poll_interval_ms" (λ x c. record c { monitor_poll_interval_ms = x })
    ∷ int_at "monitor_recv_buffer_size" (λ x c. record c { monitor_recv_buffer_size = x })
    ∷ int_at "monitor_backlog" (λ x c. record c { monitor_backlog = x })
    ∷ bool_at "enable_device_manager" (λ x c. record c { enable_device_manager = x })
    ∷ bool_at "enable_metrics" (λ x c. record c { enable_metrics = x })
    ∷ int_at "epoll_max_events" (λ x c. record c { epoll_max_events = x })
    ∷ int_at "epoll_wait_timeout_ms" (λ x c. record c { epoll_wait_timeout_ms = x })
    ∷ bool_at "enable_ipc_server" (λ x c. record c { enable_ipc_server = x })
    ∷ text_at "ipc_socket_path" (λ x c. record c { ipc_socket_path = x })
    ∷ int_at "ipc_recv_buffer_size" (λ x c. record c { ipc_recv_buffer_size = x })
    ∷ int_at "uds_backlog" (λ x c. record c { uds_backlog = x })
    ∷ bool_at "enable_dbus" (λ x c. record c { enable_dbus = x })
    ∷ text_at "dbus_bus_name" (λ x c. record c { dbus_bus_name = x })
    ∷ text_at "dbus_object_path" (λ x c. record c { dbus_object_path = x })
    ∷ text_at "dbus_interface_name" (λ x c. record c { dbus_interface_name = x })
    ∷ bool_at "enable_network_manager" (λ x c. record c { enable_network_manager = x })
    ∷ []

unfoldable pub key_of : Setting → String
key_of (int_at key put) = key
key_of (bool_at key put) = key
key_of (text_at key put) = key

-- The conversions of a value to `int`, `bool` and `std::string`.
pub record JsonLib : Type 1 where
  pub Value : Type 0
  pub Document : Type 0
  pub find : String → Document → Option Value
  pub get_int : Value → Option ℕ
  pub get_bool : Value → Option Bool
  pub get_text : Value → Option String

module _ (J : JsonLib) where
  pub convert : Setting → J.Value → RuntimeConfig → Option RuntimeConfig
  convert (int_at key put) v c = Option.map (λ x. put x c) (J.get_int v)
  convert (bool_at key put) v c = Option.map (λ x. put x c) (J.get_bool v)
  convert (text_at key put) v c = Option.map (λ x. put x c) (J.get_text v)

  -- A key that the document does not contain leaves the field as it is.
  pub assign : Setting → J.Document → RuntimeConfig → Option RuntimeConfig
  unfolding key_of convert
  assign s j c = elim (J.find (key_of s) j) [ none ↦ some c | some v ↦ convert s v c ]

  -- An exception is caught, and the assignments before it stay.
  pub load_settings : List Setting → J.Document → RuntimeConfig → RuntimeConfig
  unfolding assign
  load_settings [] j c = c
  load_settings (s ∷ ss) j c = elim (assign s j c) [ none ↦ c | some c' ↦ load_settings ss j c' ]

  -- What reading the file comes to.
  pub data File : Type 0 where
    not_open not_json : File
    holds : J.Document → File

  pub load_from_file : ℕ → File → RuntimeConfig
  unfolding load_settings default_config
  load_from_file level not_open = default_config level
  load_from_file level not_json = default_config level
  load_from_file level (holds j) = load_settings settings j (default_config level)
