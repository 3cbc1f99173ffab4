-- ===== src/Tags.antt =====
-- `BucketTag` and `ObjectVersionTag` of models.py: texts by key, for a bucket or an object version.
pub mod OfBucket
pub mod OfVersion
pub mod Laws
pub mod Copying
mod Tests
