-- ===== src/Table.antt =====
-- The tables of hirpdag_hashconsing/src/table.rs and below.
pub mod WeakEntry
pub mod Interface
pub mod VecLinear
pub mod VecSorted
pub mod HashmapFallback
pub mod Shared
pub mod SharedMutex
pub mod SharedSharded
pub mod Canonical
pub mod Builder
pub mod Strong
pub mod TovWeak
