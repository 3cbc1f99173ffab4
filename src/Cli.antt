-- ===== src/Cli.antt =====
-- cli.py: the commands on buckets and locations. A command is an action that returns the lines that it
-- prints; the identifier of a new location is chosen by the database and a parameter.
pub mod Choosing
pub mod Defaults
pub mod Running
mod Tests
use invenio_files_rest.Prelude.{
  ℕ, String, Bool, true, false, Option, none, some, List, [], ◌∷◌, ◌++◌, map, if◌then◌else◌,
}
use invenio_files_rest.Schema.{Location}
use invenio_files_rest.Session.{⊤, Action, pure, if_some, ◌>>=◌, ◌>>◌, modify_locations}
use invenio_files_rest.Storage.{Backend}
use invenio_files_rest.Location as Locations
use invenio_files_rest.Bucket
use invenio_files_rest.Bucket.{by_id, instance_of}
use invenio_files_rest.Helpers.Checksums.{Digest}
use invenio_files_rest.Helpers.Populating.{Disk, populate_from_path}

-- A line that is printed.
pub data Line : Type 0 where
  bucket_made : ℕ → Line
  version_made : ℕ → Line
  already_exists : Location → Line
  stored : Location → Line
  listed : Location → Line
  set_as_default : Location → Line
  not_found : String → Line

-- `touch`
unfoldable pub touch : Action (List Line)
unfolding Bucket.create
touch = do b ← Bucket.create Bucket.LocationArg.default none none none; pure (bucket_made b ∷ [])

-- `cp`: where there is no bucket, `None` is passed on, which is the bucket of no identifier either.
unfoldable pub cp : Backend → Digest → Disk → String → ℕ → Bool → String → Action (List Line)
unfolding Bucket.get populate_from_path
cp backend digest disk source bucket checksum key_prefix = do
  found ← Bucket.get bucket
  vs ←
      populate_from_path backend digest disk
        (elim found [ none ↦ by_id bucket | some b ↦ instance_of b ]) checksum key_prefix source
  pure (map version_made vs)

-- `_unset_default_location`
unfoldable pub unset_default : Action ⊤
unfolding Locations.get_default
unset_default = do
  found ← Locations.get_default
  if_some found (λ l. Locations.set_row l.id (λ k. record k { default = false })) (pure tt)

abbrev pub new_location : ℕ → String → String → Bool → Location
new_location i name uri default = record { id = i; name = name; uri = uri; default = default }

-- `Location(...)` and `db.session.add`.
unfoldable pub insert_location : (List Location → ℕ) → String → String → Bool → Action (List Line)
unfolding Locations.validate_name Locations.all
insert_location new_id name uri default = do
  Locations.validate_name name
  ls ← Locations.all
  modify_locations (λ ks. new_location (new_id ls) name uri default ∷ ks)
  pure (stored (new_location (new_id ls) name uri default) ∷ [])

-- What `create` does for a name that is new.
unfoldable pub add_location : (List Location → ℕ) → String → String → Bool → Action (List Line)
unfolding unset_default insert_location
add_location new_id name uri default =
    (if default then unset_default else pure tt) >> insert_location new_id name uri default

-- `create`
unfoldable pub create : (List Location → ℕ) → String → String → Bool → Action (List Line)
unfolding Locations.get_by_name add_location
create new_id name uri default = do
  found ← Locations.get_by_name name
  if_some found (λ l. pure (already_exists l ∷ [])) (add_location new_id name uri default)

-- `list`
unfoldable pub list : Action (List Line)
unfolding Locations.all
list = do ls ← Locations.all; pure (map listed ls)

-- What `set_default` does for a location that exists.
unfoldable pub make_default : Location → Action (List Line)
unfolding unset_default
make_default l = do
  unset_default
  Locations.set_row l.id (λ k. record k { default = true })
  pure (set_as_default (record l { default = true }) ∷ [])

-- `set_default`: the last line is printed in either case.
unfoldable pub set_default : String → Action (List Line)
unfolding Locations.get_by_name make_default
set_default name = do
  found ← Locations.get_by_name name
  lines ← if_some found make_default (pure [])
  pure (lines ++ not_found name ∷ [])
