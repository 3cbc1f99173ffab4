-- ===== src/Multipart/Sizes.antt =====
-- The sizes of an upload and of its parts.
use invenio_files_rest.Prelude.{
  ℕ, ◌+◌, ◌-◌, ◌*◌, ◌/◌, ◌%◌, Bool, ltb, leb, ◌==◌, ◌&&◌, not, if◌then◌else◌,
}
use Prim.Native.Nat.{min}
use invenio_files_rest.Prelude.Int.{ℤ, pos, ◌-ℤ◌}
use invenio_files_rest.Schema.{MultipartObject, Config}
use invenio_files_rest.Session.{Result, ok, err}
use invenio_files_rest.Errors.{attribute_error, zero_division_error}

-- `MultipartObject.last_part_number`. The source divides as floats and cuts: below 2 ** 53, and so
-- for every upload that the default limits admit, that is the quotient of integers.
unfoldable pub last_part_number : MultipartObject → Result ℤ
last_part_number mp =
    if mp.chunk_size == 0
    then err zero_division_error
    else ok (
        if not (mp.size % mp.chunk_size == 0)
        then pos (mp.size / mp.chunk_size)
        else pos (mp.size / mp.chunk_size) -ℤ pos 1)

-- `MultipartObject.last_part_size`
unfoldable pub last_part_size : MultipartObject → Result ℕ
last_part_size mp =
    if mp.chunk_size == 0 then err zero_division_error else ok (mp.size % mp.chunk_size)

-- `MultipartObject.is_valid_chunksize`
unfoldable pub is_valid_chunksize : Config → ℕ → Bool
is_valid_chunksize c chunk_size =
    leb c.multipart_chunksize_min chunk_size && leb chunk_size c.multipart_chunksize_max

-- `MultipartObject.is_valid_size`
unfoldable pub is_valid_size : Config → ℕ → ℕ → Bool
is_valid_size c size chunk_size =
    ltb c.multipart_chunksize_min size && leb size (chunk_size * c.multipart_max_parts)

-- `MultipartObject.expected_part_size` reads `self.multipart`, which a `MultipartObject` does not
-- have: every call raises.
unfoldable pub expected_part_size : MultipartObject → ℤ → Result ℕ
expected_part_size mp part_number = err attribute_error

-- `Part.start_byte`, `Part.end_byte` and `Part.part_size`, by the number of the part.
unfoldable pub start_byte : MultipartObject → ℕ → ℕ
start_byte mp n = n * mp.chunk_size

unfoldable pub end_byte : MultipartObject → ℕ → ℕ
end_byte mp n = min ((n + 1) * mp.chunk_size) mp.size

unfoldable pub part_size : MultipartObject → ℕ → ℕ
unfolding start_byte end_byte
part_size mp n = end_byte mp n - start_byte mp n
