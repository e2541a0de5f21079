-- ===== src/Tests.antt =====
-- Concrete inputs to which the results apply.
mod Code
mod Recovery
mod Safety
mod Stream
mod Spread
mod System
mod Wire
mod Streams
mod Order
mod Ring
mod Relay
mod Traversal
mod Secure
mod Observer
mod Unit
mod Client
mod Cmd
mod Main
