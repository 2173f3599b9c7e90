-- ===== src/Platform.antt =====
-- Below the runtime: the event loop and the sockets.
pub mod EventLoop
pub mod UdsClient
pub mod UdsServer
