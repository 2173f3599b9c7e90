-- ===== src/Actors.antt =====
-- src/core/actor_system/: the registry of actors with its handles, and their supervision.
pub mod Registry
pub mod Supervision
pub mod RuntimeTimers
pub mod Message
pub mod System
