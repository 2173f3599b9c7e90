-- ===== src/Config.antt =====
-- src/core/common/config/runtime_config.h: the configuration of the engine on Linux. An `int` is its bit
-- pattern, below 2 ^ 32. The log level of the build is a parameter.
pub mod Loader
use Prim.Native.String.{String}
use v2_engine.Common.{ℕ, Bool, false}

pub record RuntimeConfig : Type 0 where
  pub log_level : ℕ
  pub worker_count : ℕ
  pub worker_max_batch : ℕ
  pub main_loop_sleep_ms : ℕ
  pub busy_steal_interval_us : ℕ
  pub idle_steal_interval_us : ℕ
  pub park_spin_ns : ℕ
  pub token_grace_ns : ℕ
  pub default_mailbox_size : ℕ
  pub dispatcher_queue_capacity : ℕ
  pub dispatcher_high_watermark : ℕ
  pub supervisor_max_restarts : ℕ
  pub supervisor_default_strategy : ℕ
  pub dead_letter_queue_capacity : ℕ
  pub log_flush_buffer_size : ℕ
  pub memory_slab_size : ℕ
  pub memory_max_pool_alloc_size : ℕ
  pub memory_max_pools : ℕ
  pub memory_tls_batch_size : ℕ
  pub message_inline_buffer_size : ℕ
  pub enable_tick : Bool
  pub tick_interval_ms : ℕ
  pub enable_monitor : Bool
  pub monitor_socket_path : String
  pub monitor_poll_interval_ms : ℕ
  pub monitor_recv_buffer_size : ℕ
  pub monitor_backlog : ℕ
  pub enable_device_manager : Bool
  pub enable_metrics : Bool
  pub epoll_max_events : ℕ
  pub epoll_wait_timeout_ms : ℕ
  pub enable_ipc_server : Bool
  pub ipc_socket_path : String
  pub ipc_recv_buffer_size : ℕ
  pub uds_backlog : ℕ
  pub enable_dbus : Bool
  pub dbus_bus_name : String
  pub dbus_object_path : String
  pub dbus_interface_name : String
  pub enable_network_manager : Bool

pub default_config : ℕ → RuntimeConfig
default_config level = record {
  log_level = level;
  worker_count = 4;
  worker_max_batch = 32;
  main_loop_sleep_ms = 1000;
  busy_steal_interval_us = 200;
  idle_steal_interval_us = 2000;
  park_spin_ns = 3000;
  token_grace_ns = 5000;
  default_mailbox_size = 512;
  dispatcher_queue_capacity = 1024;
  dispatcher_high_watermark = 0;
  supervisor_max_restarts = 5;
  supervisor_default_strategy = 0;
  dead_letter_queue_capacity = 128;
  log_flush_buffer_size = 512;
  memory_slab_size = 4096;
  memory_max_pool_alloc_size = 2048;
  memory_max_pools = 16;
  memory_tls_batch_size = 64;
  message_inline_buffer_size = 64;
  enable_tick = false;
  tick_interval_ms = 100;
  enable_monitor = false;
  monitor_socket_path = "/tmp/v2_monitor.sock";
  monitor_poll_interval_ms = 500;
  monitor_recv_buffer_size = 4096;
  monitor_backlog = 5;
  enable_device_manager = false;
  enable_metrics = false;
  epoll_max_events = 64;
  epoll_wait_timeout_ms = 1000;
  enable_ipc_server = false;
  ipc_socket_path = "/tmp/v2_ipc.sock";
  ipc_recv_buffer_size = 4096;
  uds_backlog = 5;
  enable_dbus = false;
  dbus_bus_name = "com.v2.engine";
  dbus_object_path = "/com/v2/engine";
  dbus_interface_name = "com.v2.engine";
  enable_network_manager = false;
}
