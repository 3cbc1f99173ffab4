-- ===== src/Rest.antt =====
-- views.py: the REST interface to buckets, objects and multipart uploads.
pub mod Request
pub mod Factories
pub mod Access
pub mod Uploads
pub mod Objects
pub mod Quota
pub mod Views
pub mod Heads
pub mod Removing
pub mod Denied
pub mod UploadInvariant
pub mod Invariant
pub mod PartSizes
pub mod PartRequests
pub mod HeaderTags
mod Tests
