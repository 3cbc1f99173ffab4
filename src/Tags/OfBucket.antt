-- ===== src/Tags/OfBucket.antt =====
-- `BucketTag` of models.py; its primary key is the bucket and the key.
use invenio_files_rest.Prelude.{ℕ, String, Bool, Option, none, some, ◌∷◌, ◌&&◌, ◌==◌, str_eq}
use invenio_files_rest.Prelude.Tables.{some_row, select, update, delete as delete_rows}
use invenio_files_rest.Errors.{integrity_error}
use invenio_files_rest.Schema.{BucketTag}
use invenio_files_rest.Session.{
  ⊤, Action, pure, gets, ◌>>=◌, ◌>>◌, raise_if, modify_bucket_tags, begin_nested, if_some,
  one_or_none,
}
use invenio_files_rest.Bucket.{BucketArg, as_bucket_id}

abbrev pub is_tag : ℕ → String → BucketTag → Bool
is_tag b key t = t.bucket_id == b && str_eq t.key key

-- `BucketTag.get`
unfoldable pub get : BucketArg → String → Action (Option BucketTag)
unfolding as_bucket_id
get arg key = do one_or_none (← gets (λ s. select (is_tag (as_bucket_id arg) key) s.bucket_tags))

-- `BucketTag.create`
unfoldable pub create : BucketArg → String → String → Action ⊤
unfolding as_bucket_id
create arg key value = begin_nested (do
  present ← gets (λ s. some_row (select (is_tag (as_bucket_id arg) key) s.bucket_tags))
  raise_if present integrity_error
  modify_bucket_tags (λ ts. record { bucket_id = as_bucket_id arg; key = key; value = value } ∷ ts))

-- `BucketTag.create_or_update`
unfoldable pub create_or_update : BucketArg → String → String → Action ⊤
unfolding get create as_bucket_id
create_or_update arg key value = do
  found ← get arg key
  if_some found
      (λ t.
        modify_bucket_tags
          (update (is_tag (as_bucket_id arg) key) (λ u. record u { value = value })))
      (create arg key value)

-- `BucketTag.get_value`
unfoldable pub get_value : BucketArg → String → Action (Option String)
unfolding get
get_value arg key = do
  found ← get arg key
  pure (elim found [ none ↦ none | some t ↦ some t.value ])

-- `BucketTag.delete`
unfoldable pub delete : BucketArg → String → Action ⊤
unfolding as_bucket_id
delete arg key = begin_nested (modify_bucket_tags (delete_rows (is_tag (as_bucket_id arg) key)))
