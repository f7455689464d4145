-- ===== src/Kv.antt =====
-- The key-value server of lab_nw/kv-server*/server.c, in its four variants.
pub mod Memory
pub mod Queue
pub mod Store
pub mod Cells
pub mod Scan
pub mod Create
pub mod Delete
pub mod Read
pub mod Update
pub mod Values
pub mod Refine
pub mod Tail
pub mod Handlers
pub mod RoundTrip
pub mod Session
mod Tests
