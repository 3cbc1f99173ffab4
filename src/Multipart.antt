-- ===== src/Multipart.antt =====
-- `MultipartObject` and `Part` of models.py: an upload in parts of one size, of which the last may be
-- shorter; when every part is there the upload is completed and merged into an object version.
pub mod Sizes
pub mod Parts
pub mod Uploads
pub mod Tiling
pub mod Invariant
pub mod Merging
pub mod Completing
pub mod Numbers
pub mod Adding
pub mod Quota
mod Tests
