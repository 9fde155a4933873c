-- ===== src/Tests.antt =====
-- Runs on concrete data: the theorems at inputs where their conditions hold.
mod Vectors
mod Bodies
mod Calls
mod Routing
mod Watches
mod Rounds
mod Endings
mod Descriptors
mod Nets
mod Sockets
mod Connections
mod Classes
mod Loops
mod Typing
mod Told
mod Programs
mod Transfers
