-- ===== src/Extension.antt =====
-- ext.py and utils.py: the configuration of the extension, and the objects that it names. The import of
-- an object by its name is Werkzeug's, a parameter.
mod Tests
use invenio_files_rest.Prelude.{
  ℕ, String, Bool, true, false, Option, none, some, List, [], ◌∷◌, ◌++◌, ◌≡◌, refl, ap, ◌∙◌, arith,
  str_eq, is_some, inl, inr, Bool-cases, if◌then◌else◌, eq_iff, Option-cases,
}
use mathlib.Core.Path.{subst}
use text.Mathlib.Text.{starts_with}
use invenio_files_rest.Session.{Result, ok, err, and_then}

-- What the configuration has for a key: the name of an object, an object, or a value that is false.
pub data Setting (A : Type 0) : Type 0 where
  import_path : String → Setting A
  object : A → Setting A
  falsy : Setting A

-- `app.config`
abbrev pub AppConfig : Type 0 → Type 0
AppConfig A = List (String × Setting A)

module _ {A : Type 0} where
  unfoldable pub get : String → AppConfig A → Option (Setting A)
  get key [] = none
  get key ((k, v) ∷ rest) = if str_eq k key then some v else get key rest

  -- `dict.setdefault`
  unfoldable pub setdefault : String → Setting A → AppConfig A → AppConfig A
  unfolding get
  setdefault key v c = if is_some (get key c) then c else c ++ (key, v) ∷ []

  -- `init_config`, over the names of the module `config` and their values.
  unfoldable pub init_config : AppConfig A → AppConfig A → AppConfig A
  unfolding setdefault
  init_config [] c = c
  init_config ((k, v) ∷ rest) c =
      init_config rest (if starts_with k "FILES_REST_" then setdefault k v c else c)

  module _ (import_string : String → Result A) where
    -- `obj_or_import_string`
    unfoldable pub obj_or_import_string : Option (Setting A) → Option A → Result (Option A)
    obj_or_import_string (some (import_path path)) default =
        and_then (import_string path) (λ a. ok (some a))
    obj_or_import_string (some (object a)) default = ok (some a)
    obj_or_import_string (some falsy) default = ok default
    obj_or_import_string none default = ok default

    -- `load_or_import_from_config`
    unfoldable pub load_or_import_from_config : String → AppConfig A → Option A → Result (Option A)
    unfolding get obj_or_import_string
    load_or_import_from_config key c default = obj_or_import_string (get key c) default

    -- `storage_factory`, `permission_factory` and `file_size_limiters` of the extension's state.
    unfoldable pub storage_factory : AppConfig A → Result (Option A)
    unfolding load_or_import_from_config
    storage_factory c = load_or_import_from_config "FILES_REST_STORAGE_FACTORY" c none

    unfoldable pub permission_factory : AppConfig A → Result (Option A)
    unfolding load_or_import_from_config
    permission_factory c = load_or_import_from_config "FILES_REST_PERMISSION_FACTORY" c none

    unfoldable pub file_size_limiters : AppConfig A → Result (Option A)
    unfolding load_or_import_from_config
    file_size_limiters c = load_or_import_from_config "FILES_REST_SIZE_LIMITERS" c none

    -- `part_factories` and `upload_factories`, from the list that the configuration has, if any.
    unfoldable pub import_all : List (Setting A) → Result (List (Option A))
    unfolding obj_or_import_string
    import_all [] = ok []
    import_all (x ∷ xs) =
        let rest = import_all xs in
        and_then (obj_or_import_string (some x) none) (λ a. and_then rest (λ more. ok (a ∷ more)))

    abbrev list_or_empty : Option (List (Setting A)) → List (Setting A)
    list_or_empty none = []
    list_or_empty (some xs) = xs

    unfoldable pub part_factories : Option (List (Setting A)) → Result (List (Option A))
    unfolding import_all
    part_factories xs = import_all (list_or_empty xs)

    unfoldable pub upload_factories : Option (List (Setting A)) → Result (List (Option A))
    unfolding import_all
    upload_factories xs = import_all (list_or_empty xs)

  get-append :
      (key k : String) (v : Setting A) (c : AppConfig A)
      → get key c ≡ none
      → get key (c ++ (k, v) ∷ []) ≡ (if str_eq k key then some v else none)
  unfolding get
  get-append key k v [] e = refl
  get-append key k v ((j, w) ∷ c) e = ground (arith, get-append key k v c)

  get-append_found :
      (key k : String) (v w : Setting A) (c : AppConfig A)
      → get key c ≡ some w
      → get key (c ++ (k, v) ∷ []) ≡ some w
  unfolding get
  get-append_found key k v w [] e = cc
  get-append_found key k v w ((j, u) ∷ c) e = ground (arith, get-append_found key k v w c)

  -- A setting of the application stays.
  get-init_config_found :
      (key : String) (v : Setting A) (defaults c : AppConfig A)
      → get key c ≡ some v
      → get key (init_config defaults c) ≡ some v
  unfolding init_config
  get-init_config_found key v [] c e = e
  get-init_config_found key v ((k, w) ∷ rest) c e =
      elim (Bool-cases (starts_with k "FILES_REST_")) [
        | inr other ↦ rw other (get-init_config_found key v rest c e)
        | inl ours ↦ rw ours (elim (Bool-cases (is_some (get k c))) [
          | inl there ↦ rw there (get-init_config_found key v rest c e)
          | inr missing ↦
              rw missing (
                get-init_config_found key v rest (c ++ (k, w) ∷ [])
                  (get-append_found key k w v c e))
        ])
      ]

  -- A default of the extension is taken where there is no setting, and no other value.
  get-init_config_missing :
      (key : String) (defaults c : AppConfig A)
      → get key c ≡ none
      → get key (init_config defaults c)
        ≡ (if starts_with key "FILES_REST_" then get key defaults else none)
  unfolding init_config get
  get-init_config_missing key [] c e = elim (Bool-cases (starts_with key "FILES_REST_")) [
    | inl ours ↦ rw ours e
    | inr other ↦ rw other e
  ]
  get-init_config_missing key ((k, w) ∷ rest) c e = elim (Bool-cases (str_eq k key)) [
    | inl same ↦
        subst
          (λ j.
            get j c ≡ none
            → get j (init_config ((k, w) ∷ rest) c)
              ≡ (if starts_with j "FILES_REST_" then get j ((k, w) ∷ rest) else none))
          ((eq_iff k key).0 same) (own (λ u. get-init_config_missing k rest c u)) e
    | inr differs ↦ elim (Bool-cases (starts_with k "FILES_REST_")) [
      | inr other ↦ ground (arith, other, differs, get-init_config_missing key rest c e)
      | inl ours ↦ elim (Bool-cases (is_some (get k c))) [
        | inl there ↦ ground (arith, ours, there, differs, get-init_config_missing key rest c e)
        | inr missing ↦ ground (
          arith,
          ours,
          missing,
          differs,
          get-init_config_missing key rest (c ++ (k, w) ∷ [])
              (get-append key k w c e ∙ ap (λ b. if b then some w else none) differs),
        )
      ]
    ]
  ]
    where
      reflexive : str_eq k k ≡ true
      reflexive = (eq_iff k k).1 refl

      own :
          (get k c ≡ none
            → get k (init_config rest c)
              ≡ (if starts_with k "FILES_REST_" then get k rest else none))
          → get k c ≡ none
          → get k (init_config ((k, w) ∷ rest) c)
            ≡ (if starts_with k "FILES_REST_" then get k ((k, w) ∷ rest) else none)
      own later unset = elim (Bool-cases (starts_with k "FILES_REST_")) [
        | inr other ↦ ground (arith, other, later unset)
        | inl ours ↦ ground (
          arith,
          ours,
          unset,
          reflexive,
          get-init_config_found k w rest (c ++ (k, w) ∷ [])
              (get-append k k w c unset ∙ ap (λ b. if b then some w else none) reflexive),
        )
      ]

  -- After init_config a key has the value that the configuration of the application had, and
  -- where it had none, the default of the extension for a key that begins with FILES_REST_, and
  -- no value for any other key.
  pub get-init_config :
      (key : String) (defaults c : AppConfig A)
      → get key (init_config defaults c) ≡ (
          if is_some (get key c)
          then get key c
          else if starts_with key "FILES_REST_"
          then get key defaults
          else none)
  get-init_config key defaults c = elim (Option-cases (get key c)) [
    | inl missing ↦ rw missing (get-init_config_missing key defaults c missing)
    | inr (v, found) ↦ rw found (get-init_config_found key v defaults c found)
  ]
