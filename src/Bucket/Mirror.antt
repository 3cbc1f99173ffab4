-- ===== src/Bucket/Mirror.antt =====
-- `Bucket.snapshot` and `Bucket.sync`: a new bucket with the objects of another, and a bucket that is
-- brought up to date with another.
use invenio_files_rest.Prelude.{
  ℕ, String, Bool, true, false, Option, none, some, List, [], ◌∷◌, ◌++◌, ◌||◌, str_eq, option_eq,
  not, if◌then◌else◌, is_some,
}
use invenio_files_rest.Errors.{invalid_operation, assertion_error}
use invenio_files_rest.Schema.{ObjectVersion}
use invenio_files_rest.Session.{
  Action, pure, if_some, ◌>>=◌, ◌>>◌, raise_if, begin_nested, for_each, collect, collect,
}
use invenio_files_rest.Bucket.{row, set_row, add_new, instance_of}
use invenio_files_rest.ObjectVersion.Reading.{get_by_bucket, deleted}
use invenio_files_rest.ObjectVersion.Changing.{copy, delete as delete_object}

-- `Bucket.snapshot`
unfoldable pub snapshot : ℕ → Bool → Action ℕ
unfolding add_new get_by_bucket copy for_each
snapshot b lock = do
  r ← row b
  raise_if r.deleted (invalid_operation "Cannot make snapshot of a deleted bucket.")
  new ← begin_nested (add_new r.default_location r.default_storage_class r.quota_size none)
  os ← get_by_bucket (instance_of b) false false
  for_each os (λ o. copy o.version_id (some (instance_of new)) none)
  own ← row b
  set_row new (λ n. record n { locked = if lock then true else own.locked })
  pure new

-- What `sync` reports: a version that was added, or the key of an object that was deleted.
pub data Change : Type 0 where
  added : ℕ → Change
  removed : String → Change

-- The dictionary of the first version that the query returns for each key.
abbrev pub Versions : Type 0
Versions = List (String × ObjectVersion)

unfoldable pub lookup : String → Versions → Option ObjectVersion
lookup key [] = none
lookup key ((k, o) ∷ rest) = if str_eq k key then some o else lookup key rest

unfoldable pub by_first : List ObjectVersion → Versions → Versions
unfolding lookup
by_first [] seen = seen
by_first (o ∷ os) seen =
    by_first os (if is_some (lookup o.key seen) then seen else seen ++ (o.key, o) ∷ [])

-- One round of the loop over the source.
unfoldable pub sync_one : ℕ → Versions → String → ObjectVersion → Action (List Change)
unfolding delete_object copy
sync_one target in_target key o =
    if deleted o
    then if_some (lookup key in_target)
        (λ t.
          if deleted t
          then pure []
          else delete_object (instance_of target) key >> pure (removed key ∷ []))
        (pure [])
    else if_some (lookup key in_target)
        (λ t.
          if not (option_eq o.file_id t.file_id) || deleted t
          then copy o.version_id (some (instance_of target)) none >>= (λ v. pure (added v ∷ []))
          else pure [])
        (copy o.version_id (some (instance_of target)) none >>= λ v. pure (added v ∷ []))

unfoldable pub sync_all : ℕ → Versions → Versions → Action (List Change)
unfolding sync_one collect
sync_all target in_target source = collect source (λ (key, o). sync_one target in_target key o)

-- The loop over the extra objects: a change is reported whether or not there was one to delete.
unfoldable pub delete_one : ℕ → Versions → String × ObjectVersion → Action (List Change)
unfolding delete_object lookup
delete_one target in_source (key, o) =
    if is_some (lookup key in_source)
    then pure []
    else delete_object (instance_of target) key >> pure (removed key ∷ [])

unfoldable pub delete_extra : ℕ → Versions → Versions → Action (List Change)
unfolding delete_one collect
delete_extra target in_source dest = collect dest (delete_one target in_source)

-- `if delete_extras:`
abbrev pub extras : Bool → ℕ → Versions → Versions → Action (List Change)
extras delete_extras target in_source dest =
    if delete_extras then delete_extra target in_source dest else pure []

-- `Bucket.sync`
unfoldable pub sync : ℕ → ℕ → Bool → Action (List Change)
unfolding get_by_bucket by_first sync_all delete_extra
sync b target delete_extras = do
  r ← row b
  raise_if r.deleted (invalid_operation "Cannot sync a deleted bucket.")
  t ← row target
  raise_if t.locked assertion_error
  source ← get_by_bucket (instance_of b) false true
  dest ← get_by_bucket (instance_of target) false true
  changes ← sync_all target (by_first dest []) (by_first source [])
  more ← extras delete_extras target (by_first source []) (by_first dest [])
  pure (changes ++ more)
