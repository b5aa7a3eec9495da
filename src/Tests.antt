-- ===== src/Tests.antt =====
-- Concrete runs, and the theorems applied to them.
mod Preset
mod Runs
mod SepCount
mod Sharing
mod Tables
mod Metadata
mod Macro
mod Strong
mod TovWeak
mod Sorted
mod Archive
mod Header
mod RoundTrip
mod Rewrite
mod Leak
mod Tlc
mod Deep
mod Codec
mod Binary
mod Schema
mod Builder
mod Module
