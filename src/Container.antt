-- ===== src/Container.antt =====
-- src/core/common/container/: the byte ring and the two lock-free queues.
pub mod RingBuffer
pub mod Slots
pub mod BoundedQueue
pub mod MpscQueue
pub mod MpmcQueue
