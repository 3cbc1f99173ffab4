-- ===== src/Location.antt =====
-- `Location` of models.py: where buckets keep their files.
use Prim.Native.Char.{code}
use invenio_files_rest.Prelude.{
  ℕ, String, Bool, true, false, Option, none, some, List, [], ◌∷◌, ◌&&◌, ◌||◌, ◌==◌, not, ltb,
  str_eq,
}
use Prim.Native.String.{count as text_count}
use invenio_files_rest.Prelude.Tables.{select, update}
use invenio_files_rest.Errors.{value_error}
use invenio_files_rest.Schema.{Location}
use invenio_files_rest.Session.{
  ⊤, Action, pure, gets, ◌>>=◌, one_or_none, raise_if, modify_locations,
}

abbrev pub has_name : String → Location → Bool
has_name name l = str_eq l.name name

abbrev pub has_id : ℕ → Location → Bool
has_id i l = l.id == i

abbrev pub set_row : ℕ → (Location → Location) → Action ⊤
set_row i f = modify_locations (update (has_id i) f)

-- The code points of a text.
abbrev pub codes : String → List ℕ
codes String.[] = []
codes (String.◌∷◌ c s) = code c ∷ codes s

-- `[a-z]` and `[a-z0-9-]`
abbrev pub is_lower : ℕ → Bool
is_lower c = not (ltb c b'a') && not (ltb b'z' c)

abbrev pub is_slug_char : ℕ → Bool
is_slug_char c = is_lower c || (not (ltb c b'0') && not (ltb b'9' c)) || c == b'-'

-- `[a-z0-9-]*$`, where `$` also matches before a newline that ends the text.
unfoldable pub slug_rest : List ℕ → Bool
slug_rest [] = true
slug_rest (c ∷ []) = is_slug_char c || c == 10
slug_rest (c ∷ d ∷ rest) = is_slug_char c && slug_rest (d ∷ rest)

-- `slug_pattern.match`
unfoldable pub slug_match : List ℕ → Bool
unfolding slug_rest
slug_match (c ∷ d ∷ rest) = is_lower c && is_slug_char d && slug_rest rest
slug_match _ = false

-- `Location.validate_name`
unfoldable pub validate_name : String → Action ⊤
unfolding slug_match
validate_name name =
    raise_if (not (slug_match (codes name)) || ltb 20 (text_count name))
      (value_error "Invalid location name (lower-case alphanumeric + dashes).")

-- `Location.get_by_name`
unfoldable pub get_by_name : String → Action (Option Location)
get_by_name name = do one_or_none (← gets (λ s. select (has_name name) s.locations))

-- `Location.get_default`: none where several locations are the default one.
abbrev pub only : List Location → Option Location
only [] = none
only (l ∷ []) = some l
only (l ∷ k ∷ ls) = none

abbrev pub is_default : Location → Bool
is_default l = l.default

unfoldable pub get_default : Action (Option Location)
get_default = do ls ← gets (λ s. select is_default s.locations); pure (only ls)

-- `Location.all`
unfoldable pub all : Action (List Location)
all = gets (λ s. s.locations)
