-- ===== src/Extension/Tests.antt =====
-- A configuration with one setting of the application.
use invenio_files_rest.Prelude.{
  String, ℕ, ◌≡◌, refl, some, none, [], ◌∷◌, str_eq, is_some, if◌then◌else◌,
}
use invenio_files_rest.Session.{Result, ok, err}
use invenio_files_rest.Errors.{attribute_error}
use text.Mathlib.Text.{starts_with}
use invenio_files_rest.Extension.{
  AppConfig, import_path, object, falsy, get, init_config, get-init_config, storage_factory,
  part_factories,
}

abbrev defaults : AppConfig ℕ
defaults =
    ("FILES_REST_STORAGE_FACTORY", import_path "pyfs")
    ∷ ("FILES_REST_SIZE_LIMITERS", object 2)
    ∷ ("os", object 3)
    ∷ []

abbrev settings : AppConfig ℕ
settings = ("FILES_REST_SIZE_LIMITERS", object 5) ∷ []

abbrev modules : String → Result ℕ
modules path = if str_eq path "pyfs" then ok 1 else err attribute_error

get-init_config_example : get "FILES_REST_SIZE_LIMITERS" (init_config defaults settings) ≡ (
    if is_some (get "FILES_REST_SIZE_LIMITERS" settings)
    then get "FILES_REST_SIZE_LIMITERS" settings
    else if starts_with "FILES_REST_SIZE_LIMITERS" "FILES_REST_"
    then get "FILES_REST_SIZE_LIMITERS" defaults
    else none)
get-init_config_example = get-init_config "FILES_REST_SIZE_LIMITERS" defaults settings

imported : storage_factory modules (init_config defaults settings) ≡ ok (some 1)
unfolding storage_factory init_config
imported = refl

not_ours : get "os" (init_config defaults settings) ≡ none
unfolding init_config
not_ours = refl

all_imported :
    part_factories modules (some (import_path "pyfs" ∷ object 4 ∷ falsy ∷ []))
    ≡ ok (some 1 ∷ some 4 ∷ none ∷ [])
unfolding part_factories
all_imported = refl
