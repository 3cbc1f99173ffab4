-- ===== src/Storage/Writing.antt =====
-- storage/base.py: the loop that copies a stream in chunks under a size limit, and its two checks.
-- A stream is the list of the chunks that its reads return, before the empty read that ends it.
use invenio_files_rest.Prelude.{
  ℕ, ◌+◌, ◌*◌, Option, none, some, List, [], ◌∷◌, ◌++◌, ltb, ◌==◌, ◌&&◌, not, if◌then◌else◌,
}
use invenio_files_rest.Prelude.Int.{ℤ, pos, negsuc}
use invenio_files_rest.Prelude.Tables.{length}
use invenio_files_rest.Errors.{file_size_error, unexpected_file_size}
use invenio_files_rest.Schema.{FileSizeLimit}
use invenio_files_rest.Session.{Result, ok, err, and_then, ⊤}
use invenio_files_rest.Limiters.{less_than, int}

abbrev pub Chunk : Type 0
Chunk = List ℕ

abbrev pub Stream : Type 0
Stream = List Chunk

-- `chunk_size_or_default` of helpers.py: 0 counts as not configured.
unfoldable pub chunk_size_or_default : Option ℕ → ℕ
chunk_size_or_default none = 5 * 1024 * 1024
chunk_size_or_default (some n) = if n == 0 then 5 * 1024 * 1024 else n

-- `check_sizelimit`; `bytes_written > size_limit` is answered by `FileSizeLimit.__lt__`.
abbrev exceeds_limit : Option FileSizeLimit → ℕ → Result ⊤
exceeds_limit none written = ok tt
exceeds_limit (some l) written =
    and_then (less_than l (int (pos written)))
      λ exceeded. if exceeded then err (file_size_error l.reason) else ok tt

abbrev exceeds_total : Option ℤ → ℕ → Result ⊤
exceeds_total none written = ok tt
exceeds_total (some (negsuc total)) written =
    err (unexpected_file_size "File is bigger than expected.")
exceeds_total (some (pos total)) written =
    if ltb total written then err (unexpected_file_size "File is bigger than expected.") else ok tt

unfoldable pub check_sizelimit : Option FileSizeLimit → ℕ → Option ℤ → Result ⊤
unfolding less_than
check_sizelimit limit written total =
    and_then (exceeds_limit limit written) λ _. exceeds_total total written

-- `check_size`; a total of 0 is not checked, and none is less than a negative one.
unfoldable pub check_size : ℕ → Option ℤ → Result ⊤
check_size written none = ok tt
check_size written (some (negsuc total)) = ok tt
check_size written (some (pos total)) =
    if not (total == 0) && ltb written total
    then err (unexpected_file_size "File is smaller than expected.")
    else ok tt

-- What the destination holds when the loop ends, the bytes that the message digest was fed, and how
-- the loop ended: with the number of bytes written, or by an exception.
pub record Written : Type 0 where
  pub dst : List ℕ
  pub digested : List ℕ
  pub result : Result ℕ

-- The `while 1` loop of `_write_stream` into a destination whose writes do not fail (Storage/Pyfs has
-- it on a disk): the size checks come before each read, and so once more before the empty read that
-- ends the stream.
unfoldable pub write_chunks :
    Option FileSizeLimit → Option ℤ → Stream → List ℕ → List ℕ → ℕ → Written
unfolding check_sizelimit
write_chunks limit total [] dst digested written = record {
  dst = dst;
  digested = digested;
  result = and_then (check_sizelimit limit written total) λ _. ok written;
}
write_chunks limit total (c ∷ rest) dst digested written =
    elim (check_sizelimit limit written total) [
      | err e ↦ record { dst = dst; digested = digested; result = err e }
      | ok _ ↦ write_chunks limit total rest (dst ++ c) (digested ++ c) (written + length c)
    ]

-- `_write_stream`. The checksum that it returns is the digest of `digested`.
unfoldable pub write_stream : Option FileSizeLimit → Option ℤ → Stream → Written
unfolding write_chunks check_size
write_stream limit total src =
    let w = write_chunks limit total src [] [] 0 in
    record w { result = and_then w.result λ n. and_then (check_size n total) λ _. ok n }

-- `compute_checksum` of helpers.py: the digest is fed chunk by chunk.
module _ {Digest : Type 0} (feed : Digest → Chunk → Digest) where
  unfoldable pub feed_all : Digest → Stream → Digest
  feed_all m [] = m
  feed_all m (c ∷ rest) = feed_all (feed m c) rest
