-- ===== src/Memory.antt =====
-- src/core/common/memory/: size classes, slabs, and the central and thread-local caches of the pool.
pub mod SizeClass
pub mod FreeList
pub mod Slab
pub mod CentralCache
pub mod ThreadLocalCache
pub mod MemoryPool
