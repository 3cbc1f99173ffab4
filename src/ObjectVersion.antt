-- ===== src/ObjectVersion.antt =====
-- `ObjectVersion` of models.py: the versions of the objects of a bucket. For each key the newest
-- version is the head; a version without a file is a delete marker.
pub mod Reading
pub mod Creating
pub mod Changing
pub mod Heads
pub mod Invariant
pub mod Operations
pub mod Framing
pub mod Quota
pub mod Effects
pub mod Restoring
pub mod Store
mod Tests
pub mod Steps
