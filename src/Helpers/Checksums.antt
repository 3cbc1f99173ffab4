-- ===== src/Helpers/Checksums.antt =====
-- `compute_checksum` of helpers.py, over the message digests of hashlib.
use invenio_files_rest.Prelude.{ℕ, ◌+◌, String, List, [], ◌∷◌, ◌++◌, ◌≡◌, sym, ap, ◌∙◌}
use invenio_files_rest.Prelude.Tables.{length}
use invenio_files_rest.Prelude.Texts.{append}
use invenio_files_rest.Storage.Writing.{Stream, Chunk, feed_all}
use invenio_files_rest.Storage.Bounds.{bytes}

-- A message digest of hashlib: `update` and `hexdigest`.
pub record Digest : Type 1 where
  pub State : Type 0
  pub start : State
  pub update : State → Chunk → State
  pub hexdigest : State → String

module _ (digest : Digest) where
  -- `compute_checksum`: the loop feeds the digest until a read returns nothing.
  unfoldable pub compute_checksum : String → Stream → String
  unfolding feed_all
  compute_checksum algo stream =
      append algo (append ":" (digest.hexdigest (feed_all digest.update digest.start stream)))

  -- `compute_md5_checksum`
  unfoldable pub compute_md5_checksum : Stream → String
  unfolding compute_checksum
  compute_md5_checksum stream = compute_checksum "md5" stream

-- What the progress callback of `compute_checksum` is called with.
unfoldable pub progress : ℕ → Stream → List ℕ
progress bytes_read [] = bytes_read ∷ []
progress bytes_read (chunk ∷ chunks) =
    (bytes_read + length chunk) ∷ progress (bytes_read + length chunk) chunks

-- What hashlib documents: repeated calls of `update` are a single call with the arguments one after
-- the other.
pub record IsDigest (digest : Digest) : Type 0 where
  pub update-nil : (d : digest.State) → digest.update d [] ≡ d
  pub update-append :
      (d : digest.State) (a b : Chunk)
      → digest.update (digest.update d a) b ≡ digest.update d (a ++ b)

module _ (digest : Digest) (laws : IsDigest digest) where
  feed_all-bytes :
      (d : digest.State) (s : Stream) → feed_all digest.update d s ≡ digest.update d (bytes s)
  unfolding feed_all
  feed_all-bytes d [] = sym (laws.update-nil d)
  feed_all-bytes d (c ∷ s) = feed_all-bytes (digest.update d c) s ∙ laws.update-append d c (bytes s)

  pub compute_checksum-bytes :
      (algo : String) (s t : Stream)
      → bytes s ≡ bytes t
      → compute_checksum digest algo s ≡ compute_checksum digest algo t
  unfolding compute_checksum
  compute_checksum-bytes algo s t same =
      ap (λ d. append algo (append ":" (digest.hexdigest d)))
        (feed_all-bytes digest.start s
          ∙ ap (digest.update digest.start) same
          ∙ sym (feed_all-bytes digest.start t))
