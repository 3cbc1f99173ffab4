-- ===== src/FileInstance.antt =====
-- `FileInstance` of models.py: a file on disk with its size, checksum and state.
-- An ORM object is referred to by its identifier; its attributes are read from the session.
use invenio_files_rest.Prelude.{
  ℕ, String, Bool, true, false, Option, none, some, ◌∷◌, ◌||◌, ltb, ◌==◌, str_eq, option_eq, not,
}
use invenio_files_rest.Prelude.Int.{ℤ}
use Prim.Native.String.{count as text_count}
use invenio_files_rest.Prelude.Tables.{some_row, select, update, delete as delete_rows}
use invenio_files_rest.Errors.{value_error, file_instance_unreadable, integrity_error}
use invenio_files_rest.Schema.{FileInstance, FileSizeLimit, ObjectVersion, MultipartObject}
use invenio_files_rest.Session.{
  Session, Result, ok, err, ⊤, Action, pure, gets, lift, ◌>>=◌, ◌>>◌, raise_if, modify_files,
  begin_nested, uuid4, utcnow, one_or_none, row_of,
}
use invenio_files_rest.Storage.{Backend}
use invenio_files_rest.Storage.Writing.{Stream}

abbrev pub has_id : ℕ → FileInstance → Bool
has_id i f = f.id == i

-- The row behind the object.
abbrev pub row : ℕ → Action FileInstance
row i = do row_of (← gets (λ s. select (has_id i) s.files))

abbrev pub set_row : ℕ → (FileInstance → FileInstance) → Action ⊤
set_row i f = modify_files (update (has_id i) f)

-- `FileInstance.get`
unfoldable pub get : ℕ → Action (Option ℕ)
get i = do
  found ← one_or_none (← gets (λ s. select (has_id i) s.files))
  pure (elim found [ none ↦ none | some f ↦ some f.id ])

has_uri : String → FileInstance → Bool
has_uri uri f = elim f.uri [ none ↦ false | some u ↦ str_eq u uri ]

-- `FileInstance.get_by_uri`
unfoldable pub get_by_uri : String → Action (Option FileInstance)
unfolding has_uri
get_by_uri uri = do one_or_none (← gets (λ s. select (has_uri uri) s.files))

-- `FileInstance.create`
unfoldable pub create : Action ℕ
create = do
  i ← uuid4
  modify_files (λ fs.
      record {
        id = i;
        uri = none;
        storage_class = none;
        size = 0;
        checksum = none;
        readable = false;
        writable = true;
        last_check_at = none;
        last_check = some true;
      }
      ∷ fs)
  pure i

abbrev pub refers_to : ℕ → ObjectVersion → Bool
refers_to i o = option_eq o.file_id (some i)

abbrev is_upload_of : ℕ → MultipartObject → Bool
is_upload_of i m = m.file_id == i

-- A row of `files_object` or `files_multipartobject` refers to the file (`ondelete="RESTRICT"`).
unfoldable pub is_referenced : ℕ → Session → Bool
is_referenced i s =
    some_row (select (refers_to i) s.objects) || some_row (select (is_upload_of i) s.multiparts)

-- `FileInstance.delete`: the database refuses it where a row refers to the file.
unfoldable pub delete : ℕ → Action ⊤
unfolding is_referenced
delete i = do
  referenced ← gets (is_referenced i)
  raise_if referenced integrity_error
  modify_files (delete_rows (has_id i))

-- `ensure_readable`, `ensure_writable`
unfoldable pub ensure_readable : ℕ → Action ⊤
ensure_readable i = do f ← row i; raise_if (not f.readable) file_instance_unreadable

unfoldable pub ensure_writable : ℕ → Action ⊤
ensure_writable i = do f ← row i; raise_if (not f.writable) (value_error "File is not writable.")

-- `validate_uri`
unfoldable pub validate_uri : String → Action ⊤
validate_uri uri = do
  limit ← gets (λ s. s.config.file_uri_max_len)
  raise_if (ltb limit (text_count uri)) (value_error "FileInstance URI too long.")

abbrev pub Location : Type 0
Location = String × ℕ × Option String

-- `FileInstance.set_uri`
unfoldable pub set_uri : ℕ → Location → Bool → Bool → Option String → Action ⊤
unfolding validate_uri
set_uri i (uri, size, checksum) readable writable storage_class = do
  validate_uri uri
  default ← gets (λ s. s.config.default_storage_class)
  set_row i (λ f. record f {
    uri = some uri;
    size = size;
    checksum = checksum;
    writable = writable;
    readable = readable;
    storage_class = some (elim storage_class [ none ↦ default | some c ↦ c ]);
  })

module _ (backend : Backend) where
  -- `FileInstance.update_checksum`
  unfoldable pub update_checksum : ℕ → Action ⊤
  unfolding ensure_readable
  update_checksum i = do
    ensure_readable i
    f ← row i
    value ← lift (backend.checksum f)
    set_row i (λ g. record g { checksum = value })

  -- `FileInstance.init_contents`
  unfoldable pub init_contents : ℕ → ℕ → Action ⊤
  unfolding ensure_writable set_uri
  init_contents i size = do
    ensure_writable i
    f ← row i
    location ← lift (backend.initialize f size)
    set_uri i location false true none

  -- `FileInstance.update_contents`
  unfoldable pub update_contents : ℕ → Stream → ℕ → Option ℤ → Action (ℕ × Option String)
  unfolding ensure_writable
  update_contents i stream seek size = do
    ensure_writable i
    set_row i (λ f. record f { checksum = none })
    f ← row i
    lift (backend.update f stream seek size)

  -- `FileInstance.set_contents`
  unfoldable pub set_contents : ℕ → Stream → Option ℤ → Option FileSizeLimit → Action ⊤
  unfolding ensure_writable set_uri
  set_contents i stream size limit = do
    ensure_writable i
    f ← row i
    location ← lift (backend.save f stream size limit)
    set_uri i location true false none

  -- `FileInstance.copy_contents`
  unfoldable pub copy_contents : ℕ → ℕ → Action ⊤
  unfolding ensure_writable set_uri
  copy_contents i source = do
    ensure_writable i
    g ← row source
    raise_if (not g.readable) (value_error "Source file instance is not readable.")
    f ← row i
    raise_if (not (f.size == 0)) (value_error "File instance has data.")
    location ← lift (backend.copy f g)
    set_uri i location true false none

-- `FileInstance.clear_last_check`
unfoldable pub clear_last_check : ℕ → Action ⊤
clear_last_check i =
    begin_nested
      (do now ← utcnow; set_row i (λ f. record f { last_check = none; last_check_at = some now }))

abbrev same_checksum : Option String → Option String → Bool
same_checksum none none = true
same_checksum (some a) (some b) = str_eq a b
same_checksum _ _ = false

-- What `verify_checksum` records: nothing where no checksum could be computed.
abbrev pub check_result : Option String → Option String → Option Bool
check_result stored none = none
check_result stored (some real) = some (same_checksum stored (some real))

-- The `try` of `verify_checksum`.
abbrev recovered : Bool → Result (Option String) → Result (Option String)
recovered throws (ok c) = ok c
recovered true (err e) = err e
recovered false (err e) = ok none

-- `FileInstance.verify_checksum`
unfoldable pub verify_checksum : Backend → Bool → ℕ → Action (Option Bool)
verify_checksum backend throws i = do
  f ← row i
  real ← lift (recovered throws (backend.checksum f))
  begin_nested (do
    now ← utcnow
    set_row i
        (λ g. record g { last_check = check_result g.checksum real; last_check_at = some now }))
  pure (check_result f.checksum real)
