-- ===== src/Protocol.antt =====
-- The library's own interfaces: for each the stubs that marshal a call into a message, and the
-- dispatcher that reads it back and calls a handler. A handler's call is a value of the model; a
-- handler that a dispatch table leaves null is not called. `none` is a failed assertion.
pub mod App
pub mod Timer
pub mod Io
pub mod Extern
pub mod ExternServer
pub mod Com
pub mod Sockets
pub mod Fields
