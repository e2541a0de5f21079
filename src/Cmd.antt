-- ===== src/Cmd.antt =====
-- The programs under cmd that have a logic of their own: the client (`Keys`, `Settings`, `Handler`,
-- `Main`) and the measurements (`Stats`).
pub mod Keys
pub mod Settings
pub mod Persist
pub mod Handler
pub mod Pipe
pub mod Main
pub mod Stats
