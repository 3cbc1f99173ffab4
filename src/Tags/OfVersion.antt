-- ===== src/Tags/OfVersion.antt =====
-- `ObjectVersionTag` of models.py; its primary key is the version and the key.
use Prim.Native.String.{count as text_count}
use invenio_files_rest.Prelude.{
  ℕ, String, Bool, Option, none, some, List, ◌∷◌, ◌&&◌, ◌==◌, str_eq, ltb, not, if◌then◌else◌,
}
use invenio_files_rest.Prelude.Tables.{some_row, select, update, delete as delete_rows}
use invenio_files_rest.Errors.{assertion_error, integrity_error}
use invenio_files_rest.Schema.{ObjectVersionTag}
use invenio_files_rest.Session.{
  ⊤, Action, pure, gets, ◌>>=◌, ◌>>◌, raise_if, modify_object_tags, begin_nested, if_some,
  one_or_none, for_each,
}

abbrev pub is_tag : ℕ → String → ObjectVersionTag → Bool
is_tag v key t = t.version_id == v && str_eq t.key key

abbrev pub tags_of : ℕ → ObjectVersionTag → Bool
tags_of v t = t.version_id == v

-- `ObjectVersionTag.get`
unfoldable pub get : ℕ → String → Action (Option ObjectVersionTag)
get v key = do one_or_none (← gets (λ s. select (is_tag v key) s.object_tags))

-- `assert len(key) < 256` and `assert len(value) < 256`
abbrev pub is_short : String → Bool
is_short text = ltb (text_count text) 256

assert_short : String → String → Action ⊤
assert_short key value = do
  raise_if (not (is_short key)) assertion_error
  raise_if (not (is_short value)) assertion_error

-- `ObjectVersionTag.create`
unfoldable pub create : ℕ → String → String → Action ⊤
unfolding assert_short
create v key value = do
  assert_short key value
  begin_nested (do
    present ← gets (λ s. some_row (select (is_tag v key) s.object_tags))
    raise_if present integrity_error
    modify_object_tags (λ ts. record { version_id = v; key = key; value = value } ∷ ts))

-- `ObjectVersionTag.create_or_update`
unfoldable pub create_or_update : ℕ → String → String → Action ⊤
unfolding get create assert_short
create_or_update v key value = do
  assert_short key value
  found ← get v key
  if_some found (λ t. modify_object_tags (update (is_tag v key) (λ u. record u { value = value })))
      (create v key value)

-- `ObjectVersionTag.get_value`
unfoldable pub get_value : ℕ → String → Action (Option String)
unfolding get
get_value v key = do found ← get v key; pure (elim found [ none ↦ none | some t ↦ some t.value ])

-- `ObjectVersionTag.delete`: one tag, or all tags of the version where the key is missing or empty.
unfoldable pub delete : ℕ → Option String → Action ⊤
delete v key = begin_nested (
    modify_object_tags (
      delete_rows
        (elim key [ none ↦ tags_of v | some k ↦ if str_eq k "" then tags_of v else is_tag v k ])))

-- The loop of `ObjectVersion.copy` over the tags of the version that is copied.
unfoldable pub copy_all : ℕ → List ObjectVersionTag → Action ⊤
unfolding create_or_update for_each
copy_all target tags = for_each tags (λ t. create_or_update target t.key t.value)

-- `ObjectVersionTag.copy`: `key or self.key`
unfoldable pub copy : ObjectVersionTag → Option ℕ → Option String → Action ⊤
unfolding create
copy t target key =
    create (elim target [ none ↦ t.version_id | some v ↦ v ])
      (elim key [ none ↦ t.key | some k ↦ if str_eq k "" then t.key else k ]) t.value
