-- ===== src/Serialize.antt =====
-- Serialization: hirpdag/src/base/serialize.rs, and what hirpdag_derive/src/lib.rs generates for it.
pub mod Denoted
pub mod Entry
pub mod Hashconsed
pub mod Header
pub mod Nodes
pub mod Binary
pub mod Closed
pub mod Deep
pub mod Collect
pub mod Archive
pub mod Collected
pub mod Malformed
pub mod NodeTable
pub mod Ordered
pub mod Input
pub mod Json
pub mod RoundTrip
pub mod Flat
pub mod SameProcess
pub mod Unique
pub mod Safe
pub mod Typed
pub mod ReadBack
pub mod Visit
pub mod Wire
pub mod Written
