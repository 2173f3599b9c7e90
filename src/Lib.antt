-- ===== src/Lib.antt =====
-- V2-Engine: an actor runtime in C++, its core modelled.
--
-- Actors receive messages through a bounded mailbox. A dispatcher gives each actor with mail a token
-- in the queue of one worker; a worker takes the token, lets the actor's runtime process a batch of
-- its mailbox, and settles the token. A failure goes to the supervisor, which moves the mailbox to the
-- dead letters and restarts or stops the actor. Handles reach actors through a registry with
-- generations. Queues and a pool of fixed-size blocks stand below all of this. On top stand services:
-- a command service that answers the command line through other actors, a network manager and a
-- monitor.
--
-- Files and what they model:
--   Container/RingBuffer: src/core/common/container/ring_buffer.hpp and ring_buffer.cpp
--     (push, pop, reset, freeSpace, ...); Container/RingBuffer/Fifo has the contract.
--   Container/MpmcQueue/Threads: push and pop of lock_free_mpmc_queue.hpp with any number of threads
--     inside them, one load, compare-exchange, store or construction at a time.
--   Actors/Message: src/core/actor_system/messages/message.hpp (make, the move operations, clone,
--     visit, the destructor).
--   Container/Slots, Container/MpscQueue, Container/MpmcQueue:
--     src/core/common/container/lock_free_mpsc_queue.hpp and lock_free_mpmc_queue.hpp (constructor,
--     push, pop, popBatch, empty, count); Container/BoundedQueue has their contract.
--   Memory/SizeClass, Memory/FreeList, Memory/Slab, Memory/CentralCache:
--     src/core/common/memory/size_class.hpp, free_list.hpp, slab.hpp and central_cache.hpp.
--   Memory/ThreadLocalCache: src/core/common/memory/thread_local_cache.hpp, for one thread.
--   Memory/MemoryPool: src/core/common/memory/memory_pool.hpp.
--   Dispatcher: src/core/actor_system/runtime/dispatcher/work_dispatcher.hpp and work_dispatcher.cpp
--     (dispatch, redispatch, settleToken, drainPendedActor, acquire, beginDrain, ...).
--   Dispatcher/Token: one actor's token among the threads that post to it and the workers that run
--     it (dispatch, releaseInFlight and claimInFlight of work_dispatcher.cpp, enqueue and run of
--     actor_runtime.cpp, runLoop of worker.cpp).
--   Dispatcher/Worker: runLoop of src/core/actor_system/runtime/dispatcher/worker.cpp.
--   Actors/System: src/core/actor_system/actor_system.hpp and actor_system.cpp (createActor,
--     attachActor, start, stop, ...).
--   Config: src/core/common/config/runtime_config.h; Config/Loader:
--     src/infra/config/json_config_loader.cpp.
--   Platform/EventLoop: src/infra/platform/linux/event_loop_epoll.cpp (subscribe, unsubscribe, post,
--     drainPendingOps, run); Platform/EventLoop/Threads: the steps of any number of threads in them.
--   Platform/UdsServer, Platform/UdsClient: src/infra/transport/uds/uds_server.cpp and uds_client.cpp.
--   Services/Ipc: src/service/ipc/ipc_server_actor.cpp; Services/Bridge:
--     src/service/monitor/monitor_bridge_actor.cpp; Services/Snapshot:
--     src/service/monitor/monitor_data.hpp (to_json, from_json).
--   Services/Cmd: src/service/cmd/cmd_actor.cpp; Services/Cmd/Tokens: the part of its dispatch that
--     takes a command apart; Services/Cli: run of src/app/cli/cli_app.cpp.
--   Services/Wifi: src/service/network_manager/wifi_handler.cpp; Services/Wifi/Manager:
--     src/service/network_manager/network_manager_actor.cpp.
--   Services/Monitor: src/service/monitor/monitor_actor.cpp and
--     src/service/device_manager/device_manager_actor.cpp; Services/Monitor/Agreement: the two
--     together, with messages on their way.
--   Actors/Registry: src/core/actor_system/actor/actor_registry.cpp and actor_handle.hpp.
--   Actors/Supervision: src/core/actor_system/runtime/supervisor/supervisor.cpp and, of
--     src/core/actor_system/runtime/actor_runtime/actor_runtime.cpp, tryConsumeLifecycle, tryRestart,
--     performRestart, shutdown and processBatch; Actors/RuntimeTimers: addTimer, cancelTimer and
--     cancelAllTimers of the same file.
--   Metrics: src/core/perf/metrics/metrics.hpp and metrics.cpp.
--   Timer: src/core/common/timer/timer_base.hpp and timer_base.cpp (add, cancel,
--     executeExpiredTimers, ...); Timer/Scheduler:
--     src/core/actor_system/runtime/scheduler/scheduler.cpp.
--   Common: Boolean tests, lists, association lists and remainders that the parts share.
--
-- Each operation takes its state and gives the next; an error is a result, a null pointer or an
-- exception of a constructor is `none`. Sums of `size_t` keep their wrap-around where the code
-- relies on them; the counters of the supervisor, which only report, do not. A loop that may not
-- end has fuel, and `none` is then a loop that has not returned: a push or pop of a lock-free
-- queue has one unit for each round; `fetchBatch` has one more than the blocks asked for;
-- `onActorFailed` needs more than the restarts that are left; the tokenizer of a command needs
-- more than its bytes. `acquire` runs on a list of answers of its timed wait.
--
-- Not modelled: the steps of several threads inside one operation other than push and pop of the
-- multi-consumer queue, the life of a token and the subscriptions of the event loop, weaker memory
-- orders than sequential consistency, logging, the calls of the metrics, the layout of texts, the
-- other services and applications, and the system calls below them. The memory that
-- `operator new` returns, the class of an actor, the callback of `setRestartAll`, the answers of
-- the kernel and of NetworkManager, and the JSON library are parameters. The
-- interleaved steps of the multi-consumer queue count positions without the wrap-around of `size_t`,
-- and a handler of the event loop asks the same of it at each call.
pub mod Common
pub mod Container
pub mod Memory
pub mod Dispatcher
pub mod Actors
pub mod Metrics
pub mod Timer
pub mod Config
pub mod Platform
pub mod Services
