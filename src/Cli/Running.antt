-- ===== src/Cli/Running.antt =====
-- The commands of cli.py one after the other, and the default location.
use invenio_files_rest.Prelude.{ℕ, String, Bool, none, List, [], ◌∷◌, ◌≡◌}
use invenio_files_rest.Prelude.Tables.{select}
use invenio_files_rest.Schema.{
  Location, ObjectVersion, Bucket as BucketRow, FileInstance as FileRow,
}
use invenio_files_rest.Session.{
  Session, Action, modify_objects, modify_buckets, modify_files, begin_nested,
}
use invenio_files_rest.Session.Keeps.{Keeps, Keeps-begin_nested, keeps_rules}
use invenio_files_rest.Storage.{Backend}
use invenio_files_rest.Location.{has_id, get_by_name, get_default, all}
use invenio_files_rest.Bucket
use invenio_files_rest.ObjectVersion.Framing.{IsFramed, create-Keeps, create_from_stream-Keeps}
use invenio_files_rest.Helpers.Checksums.{Digest}
use invenio_files_rest.Helpers.Populating.{Disk, populate_from_path, populate_from_path-Keeps}
use invenio_files_rest.Cli.{Line, touch, cp, create, list, set_default}
use invenio_files_rest.Cli.Defaults.{HasOneDefault, add_location-Keeps, set_default-Keeps}

list-Keeps : Keeps HasOneDefault list
unfolding list all
list-Keeps = search keeps_rules

files-Keeps : (f : List FileRow → List FileRow) → Keeps HasOneDefault (modify_files f)
unfolding modify_files
files-Keeps f = record { at = λ s w. record { sole = w.sole; ids = w.ids } }

buckets-Keeps : (f : List BucketRow → List BucketRow) → Keeps HasOneDefault (modify_buckets f)
unfolding modify_buckets
buckets-Keeps f = record { at = λ s w. record { sole = w.sole; ids = w.ids } }

objects-Keeps :
    (f : List ObjectVersion → List ObjectVersion) → Keeps HasOneDefault (modify_objects f)
unfolding modify_objects
objects-Keeps f = record { at = λ s w. record { sole = w.sole; ids = w.ids } }

defaults-IsFramed : IsFramed HasOneDefault
defaults-IsFramed = record { files = files-Keeps; objects = objects-Keeps; buckets = buckets-Keeps }

touch-Keeps : Keeps HasOneDefault touch
unfolding touch Bucket.create Bucket.add_new Bucket.validate_storage_class get_default
touch-Keeps = search (keeps_rules, buckets-Keeps) depth 14

cp-Keeps :
    (backend : Backend) (digest : Digest) (disk : Disk) (source : String) (bucket : ℕ)
    (checksum : Bool) (key_prefix : String)
    → Keeps HasOneDefault (cp backend digest disk source bucket checksum key_prefix)
unfolding cp Bucket.get
cp-Keeps backend digest disk source bucket checksum key_prefix =
    search (keeps_rules, filled) depth 14
  where
    filled :
        (arg : Bucket.BucketArg)
        → Keeps HasOneDefault
            (populate_from_path backend digest disk arg checksum key_prefix source)
    filled arg =
        populate_from_path-Keeps backend digest disk arg checksum key_prefix HasOneDefault
          (λ key i. create-Keeps HasOneDefault defaults-IsFramed arg key i none none)
          (λ key stream.
            create_from_stream-Keeps HasOneDefault defaults-IsFramed backend arg key none stream
              none none)
          source

-- The commands, with what each is given.
pub data Command : Type 0 where
  touch_command : Command
  cp_command : String → ℕ → Bool → String → Command
  create_command : String → String → Bool → Command
  list_command : Command
  set_default_command : String → Command

module _ (backend : Backend) (digest : Digest) (disk : Disk) (new_id : List Location → ℕ) where
  unfoldable pub command : Command → Action (List Line)
  unfolding touch cp create list set_default
  command touch_command = touch
  command (cp_command source bucket checksum key_prefix) =
      cp backend digest disk source bucket checksum key_prefix
  command (create_command name uri default) = create new_id name uri default
  command list_command = list
  command (set_default_command name) = set_default name

  -- Each command is a transaction of its own, which is committed unless the command raises.
  unfoldable pub run : List Command → Session → Session
  unfolding command begin_nested
  run [] s = s
  run (c ∷ cs) s = run cs (begin_nested (command c) s).1

  module _ (new_id_fresh : (ls : List Location) → select (has_id (new_id ls)) ls ≡ []) where
    create_location-Keeps :
        (name uri : String) (default : Bool) → Keeps HasOneDefault (create new_id name uri default)
    unfolding create get_by_name
    create_location-Keeps name uri default =
        search (keeps_rules, add_location-Keeps new_id new_id_fresh) depth 12

    command-Keeps : (c : Command) → Keeps HasOneDefault (command c)
    unfolding command
    command-Keeps touch_command = touch-Keeps
    command-Keeps (cp_command source bucket checksum key_prefix) =
        cp-Keeps backend digest disk source bucket checksum key_prefix
    command-Keeps (create_command name uri default) = create_location-Keeps name uri default
    command-Keeps list_command = list-Keeps
    command-Keeps (set_default_command name) = set_default-Keeps name

    -- Any sequence of the commands touch, cp, create, list and set_default, each of which is
    -- rolled back where it raises, begun where at most one location is the default one and no two
    -- have the same identifier, ends so, whatever the disk, the digest and the storage backend
    -- answer, if a new location is given an identifier that no location has.
    pub run-HasOneDefault :
        (cs : List Command) (s : Session) → HasOneDefault s.db → HasOneDefault (run cs s).db
    unfolding run
    run-HasOneDefault [] s w = w
    run-HasOneDefault (c ∷ cs) s w =
        run-HasOneDefault cs (begin_nested (command c) s).1
          ((Keeps-begin_nested (command c) (command-Keeps c)).at s w)
