-- ===== src/Rest/PartSizes.antt =====
-- The parts that `multipart_uploadpart` accepts, and what a part that fails leaves behind.
use native.Mathlib.Nat.{mod-lt, mod-le, div-add-mod, div-eq_of_lt-le}
use invenio_files_rest.Prelude.{
  ℕ, ◌+◌, ◌*◌, ◌/◌, ◌%◌, ◌≤◌, ◌<◌, String, ◌≡◌, refl, ◌≢◌, inl, inr, true, some, arith, ap, sym,
  ◌∙◌,
}
use invenio_files_rest.Prelude.Int.{ℤ, pos, int_eq}
use invenio_files_rest.Errors.{multipart_invalid_chunk_size}
use invenio_files_rest.Schema.{MultipartObject}
use invenio_files_rest.Session.{Session, ok, err, ◌>>=◌}
use invenio_files_rest.Multipart.Sizes.{last_part_number, last_part_size, start_byte, part_size}
use invenio_files_rest.Multipart.Tiling.{IsPart, IsPart-iff, part_size_lem}
use invenio_files_rest.Rest.Request.{App, Request, PartUpload}
use invenio_files_rest.Rest.Factories.{multipart_partfactory}
use invenio_files_rest.Rest.Access.{pass_multipart}
use invenio_files_rest.Rest.Uploads.{part_length, check_part_length, upload_part}

int_eq_refl : (a : ℤ) → int_eq a a ≡ true
int_eq_refl a = ground arith

exact_length :
    (mp : MultipartObject) (last : ℤ)
    → last_part_number mp ≡ ok last
    → mp.size % mp.chunk_size ≡ 0
    → part_length mp last ≡ ok 0
unfolding part_length last_part_size last_part_number
exact_length mp last number exact = ground (arith, number, exact, int_eq_refl last)

check_exact :
    (mp : MultipartObject) (a : PartUpload) (n : ℤ) (s : Session)
    → mp.size % mp.chunk_size ≡ 0
    → last_part_number mp ≡ ok a.part_number
    → a.content_length ≡ some n
    → n ≢ pos 0
    → check_part_length mp a.part_number a.content_length s ≡ (err multipart_invalid_chunk_size, s)
unfolding check_part_length ◌>>=◌
check_exact mp a n s exact last length some_bytes =
    ground (arith, length, exact_length mp a.part_number last exact)

-- When the chunk size is not 0 and divides the size of an upload, a request that announces the
-- number of the last part and a length that is not 0 is refused with MultipartInvalidChunkSize
-- whatever that length is, and changes nothing.
pub upload_part-exact :
    (app : App) (rq : Request) (b : ℕ) (key : String) (u : ℕ) (mp : MultipartObject)
    (a : PartUpload) (n : ℤ) (s : Session)
    → pass_multipart b key u true s ≡ (ok mp, s)
    → multipart_partfactory app rq s.config ≡ ok a
    → mp.size % mp.chunk_size ≡ 0
    → last_part_number mp ≡ ok a.part_number
    → a.content_length ≡ some n
    → n ≢ pos 0
    → upload_part app rq b key u s ≡ (err multipart_invalid_chunk_size, s)
unfolding upload_part ◌>>=◌
upload_part-exact app rq b key u mp a n s found read exact last length some_bytes =
    ground (arith, found, read, check_exact mp a n s exact last length some_bytes)

size_pos : (mp : MultipartObject) → 0 < mp.size % mp.chunk_size → 0 < mp.size
size_pos mp rest = grind (arith, mod-le mp.size mp.chunk_size)

below_next : (d c : ℕ) → 0 < c → ((d / c + 1) * c ≤ d) → ⊥
below_next d c pos_c h = omega (arith, h, div-add-mod d c, mod-lt d pos_c)

begins : (mp : MultipartObject) (n : ℕ) → start_byte mp n ≡ n * mp.chunk_size
unfolding start_byte
begins mp n = refl

length_last :
    (mp : MultipartObject) (n : ℕ)
    → 0 < mp.chunk_size
    → 0 < mp.size % mp.chunk_size
    → mp.size / mp.chunk_size ≡ n
    → part_length mp (pos n) ≡ last_part_size mp
unfolding part_length last_part_number last_part_size
length_last mp n c rest same = ground arith

length_other :
    (mp : MultipartObject) (n : ℕ)
    → 0 < mp.chunk_size
    → 0 < mp.size % mp.chunk_size
    → n ≢ mp.size / mp.chunk_size
    → part_length mp (pos n) ≡ ok mp.chunk_size
unfolding part_length last_part_number
length_other mp n c rest differ = ground arith

-- For an upload whose chunk size is positive and does not divide its size, the length that a
-- request to upload a part has to announce is the number of bytes from the part's first to its
-- last byte.
pub part_length-eq-part_size :
    (mp : MultipartObject) (n : ℕ)
    → 0 < mp.chunk_size
    → 0 < mp.size % mp.chunk_size
    → IsPart mp n
    → part_length mp (pos n) ≡ ok (part_size mp n)
part_length-eq-part_size mp n c rest part =
    let z : 0 < mp.size = size_pos mp rest in
    elim (part_size_lem mp c z n part) [
      | inl (whole, size) ↦
          let differ : n ≢ mp.size / mp.chunk_size = λ e.
            below_next mp.size mp.chunk_size c
              (omega (arith, ap (λ (k : ℕ). (k + 1) * mp.chunk_size) e)) in
          length_other mp n c rest differ ∙ ap ok (sym size)
      | inr (cut, size, _) ↦
          let same : mp.size / mp.chunk_size ≡ n =
            div-eq_of_lt-le {k = n} mp.chunk_size
              (omega (arith, (IsPart-iff mp n c z).0 part, begins mp n)) cut in
          length_last mp n c rest same ∙ size
    ]
