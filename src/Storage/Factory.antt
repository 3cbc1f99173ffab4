-- ===== src/Storage/Factory.antt =====
-- `pyfs_storage_factory` of storage/pyfs.py: where the file of a file instance lies. A text is taken
-- apart into its characters for `make_path`.
use invenio_files_rest.Prelude.{
  ℕ, String, Bool, false, Option, none, some, List, not, ◌==◌, ◌&&◌, str_eq, if◌then◌else◌,
}
use invenio_files_rest.Errors.{assertion_error}
use invenio_files_rest.Schema.{Config, FileInstance}
use invenio_files_rest.Session.{Result, ok, err, and_then}
use invenio_files_rest.Helpers.Mimetypes.{truthy}
use invenio_files_rest.Helpers.Paths.{make_path}

abbrev known_size : Option ℕ → Bool
known_size none = false
known_size (some n) = not (n == 0)

module _ {A : Type 0} (join : List A → List (List A) → List A) (characters : String → List A)
    (text : List A → String) (id_text : ℕ → String) where
  -- The path below a location that is generated for an identifier.
  unfoldable pub generated_url : Config → ℕ → String → Result String
  unfolding make_path
  generated_url c i location =
      elim (make_path join (characters location) (characters (id_text i)) (characters "data")
        c.path_dimensions c.path_split_length) [
          | none ↦ err assertion_error
          | some path ↦ ok (text path)
        ]

  abbrev located : Config → ℕ → Option String → Result String
  located c i none = err assertion_error
  located c i (some location) =
      if str_eq location "" then err assertion_error else generated_url c i location

  abbrev url_of : Config → FileInstance → Option String → Result String
  url_of c f location = elim f.uri [
    | none ↦ located c f.id location
    | some uri ↦ if str_eq uri "" then located c f.id location else ok uri
  ]

  -- `pyfs_storage_factory`: the URL and the size of the storage. The size of a file instance takes the
  -- place of the one that is passed.
  unfoldable pub pyfs_storage_factory :
      Config
      → Option FileInstance
      → Option String
      → Option String
      → Option ℕ
      → Result (Option String × Option ℕ)
  unfolding generated_url
  pyfs_storage_factory c none location fileurl size =
      if truthy fileurl && known_size size then ok (fileurl, size) else err assertion_error
  pyfs_storage_factory c (some f) location fileurl size =
      and_then (url_of c f location) λ url. ok (some url, some f.size)
