-- ===== src/Buffer.antt =====
-- src/buffer/ring.go: a ring of fixed size between two goroutines.
pub mod Ring
pub mod Queue
pub mod Refine
