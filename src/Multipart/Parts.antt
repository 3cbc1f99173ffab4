-- ===== src/Multipart/Parts.antt =====
-- The operations of `Part`.
use invenio_files_rest.Prelude.{ℕ, Bool, Option, none, some, List, ◌∷◌, ◌&&◌, ◌==◌}
use invenio_files_rest.Prelude.Int.{ℤ, pos, negsuc, ltb_ℤ}
use invenio_files_rest.Prelude.Tables.{some_row, select, count, update, delete as delete_rows}
use invenio_files_rest.Errors.{
  multipart_invalid_part_number, multipart_already_completed, integrity_error,
}
use invenio_files_rest.Schema.{MultipartObject, Part}
use invenio_files_rest.Session.{
  ⊤, Action, pure, raise, gets, lift, if_some, ◌>>=◌, ◌>>◌, raise_if, modify_parts, begin_nested,
  one_or_none, row_of,
}
use invenio_files_rest.Storage.{Backend}
use invenio_files_rest.Storage.Writing.{Stream}
use invenio_files_rest.FileInstance
use invenio_files_rest.Multipart.Sizes.{last_part_number, start_byte, part_size}

abbrev pub has_id : ℕ → MultipartObject → Bool
has_id u m = m.upload_id == u

abbrev pub row : ℕ → Action MultipartObject
row u = do row_of (← gets (λ s. select (has_id u) s.multiparts))

abbrev pub part_of : ℕ → Part → Bool
part_of u p = p.upload_id == u

abbrev pub is_part : ℕ → ℕ → Part → Bool
is_part u n p = part_of u p && p.part_number == n

-- `Part.query_by_multipart`
unfoldable pub query_by_multipart : ℕ → Action (List Part)
query_by_multipart u = gets (λ s. select (part_of u) s.parts)

-- `Part.count`
unfoldable pub part_count : ℕ → Action ℕ
part_count u = gets (λ s. count (part_of u) s.parts)

-- The new row; the upload and the number are the primary key.
abbrev pub add_part : ℕ → ℕ → Action ⊤
add_part u n = begin_nested (do
  present ← gets (λ s. some_row (select (is_part u n) s.parts))
  raise_if present integrity_error
  modify_parts (λ ps. record { upload_id = u; part_number = n; checksum = none } ∷ ps))

-- `Part.create` with no stream: the number lies in the range of the upload.
unfoldable pub create : ℕ → ℤ → Action ⊤
unfolding last_part_number
create u (negsuc n) = raise multipart_invalid_part_number
create u (pos n) = do
  mp ← row u
  last ← lift (last_part_number mp)
  raise_if (ltb_ℤ last (pos n)) multipart_invalid_part_number
  add_part u n

abbrev pub number : ℤ → Option ℕ
number (pos n) = some n
number (negsuc n) = none

-- `Part.get_or_none`
unfoldable pub get_or_none : ℕ → ℤ → Action (Option Part)
get_or_none u n =
    if_some (number n) (λ k. do one_or_none (← gets (λ s. select (is_part u k) s.parts)))
      (pure none)

-- `Part.get_or_create`
unfoldable pub get_or_create : ℕ → ℤ → Action ⊤
unfolding get_or_none create
get_or_create u n = do found ← get_or_none u n; if_some found (λ p. pure tt) (create u n)

-- `Part.delete`
unfoldable pub delete : ℕ → ℤ → Action ⊤
delete u n = if_some (number n) (λ k. modify_parts (delete_rows (is_part u k))) (pure tt)

-- `Part.set_contents`
unfoldable pub set_contents : Backend → ℕ → ℕ → Stream → Action ⊤
unfolding FileInstance.update_contents start_byte part_size
set_contents backend u n stream = do
  mp ← row u
  raise_if mp.completed multipart_already_completed
  (size, checksum) ←
      FileInstance.update_contents backend mp.file_id stream (start_byte mp n)
        (some (pos (part_size mp n)))
  modify_parts (update (is_part u n) (λ p. record p { checksum = checksum }))
