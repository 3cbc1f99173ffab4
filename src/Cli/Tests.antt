-- ===== src/Cli/Tests.antt =====
-- Runs of the commands on a small session.
use invenio_files_rest.Prelude.{ℕ, ◌+◌, ◌≤◌, true, false, some, List, [], ◌∷◌, ◌≡◌, refl, arith}
use invenio_files_rest.Prelude.Tables.{select, length}
use invenio_files_rest.Schema.{Location}
use invenio_files_rest.Session.{Session, ok, err, ◌>>=◌}
use invenio_files_rest.Errors.{value_error}
use invenio_files_rest.Location.{has_id, get_default, slug_match, codes}
use invenio_files_rest.Helpers.Checksums.{Digest}
use invenio_files_rest.Helpers.Populating.{Disk}
use invenio_files_rest.Samples.{session, backend, place}
use invenio_files_rest.Cli.{
  create, set_default, set_as_default, not_found, stored, already_exists, new_location,
}
use invenio_files_rest.Cli.Defaults.{HasOneDefault}
use invenio_files_rest.Cli.Running.{
  run, run-HasOneDefault, touch_command, cp_command, create_command, list_command,
  set_default_command,
}
use invenio_files_rest.Cli.Choosing.{set_default_lem}

abbrev next_id : List Location → ℕ
next_id [] = 1
next_id (l ∷ ls) = l.id + next_id ls

next_id_pos : (ls : List Location) → 1 ≤ next_id ls
next_id_pos [] = omega arith
next_id_pos (l ∷ ls) = omega (arith, next_id_pos ls)

above : (ls : List Location) (n : ℕ) → next_id ls ≤ n → select (has_id n) ls ≡ []
above [] n h = refl
above (l ∷ ls) n h = ground (arith, above ls n, next_id_pos ls)

abbrev digest : Digest
digest = record {
  State = ℕ;
  start = 0;
  update = λ d chunk. d + length chunk;
  hexdigest = λ d. "aa";
}

abbrev disk : Disk
disk = record {
  open_file = λ path. ok ((1 ∷ 2 ∷ []) ∷ []);
  size_of = λ path. 2;
  is_file = λ path. true;
  basename = λ path. path;
  join = λ directory name. name;
  walk = λ source. [];
  starts_with = λ path source. true;
  parts_after = λ source path. path ∷ [];
}

session-HasOneDefault : HasOneDefault session.db
session-HasOneDefault = record { sole = omega arith; ids = λ i. ground arith }

run-HasOneDefault_example :
    HasOneDefault
      (run backend digest disk next_id
        (touch_command
          ∷ cp_command "a" 7 true ""
          ∷ create_command "other" "/other" true
          ∷ set_default_command "main"
          ∷ list_command
          ∷ [])
        session).db
run-HasOneDefault_example =
    run-HasOneDefault backend digest disk next_id (λ ls. above ls (next_id ls) (omega arith))
      (touch_command
        ∷ cp_command "a" 7 true ""
        ∷ create_command "other" "/other" true
        ∷ set_default_command "main"
        ∷ list_command
        ∷ [])
      session session-HasOneDefault

set_default_example :
    (t : Session) × (set_default "main" session
      ≡ (ok (set_as_default place ∷ not_found "main" ∷ []), t))
    × (get_default t ≡ (ok (some place), t))
set_default_example = set_default_lem session "main" place session-HasOneDefault refl

created :
    (create next_id "other" "/other" true session).0
    ≡ ok (stored (new_location 2 "other" "/other" true) ∷ [])
unfolding create ◌>>=◌
created = refl

refused_name :
    (create next_id "Other" "/other" true session).0
    ≡ err (value_error "Invalid location name (lower-case alphanumeric + dashes).")
unfolding create ◌>>=◌
refused_name = refl

made_before : (create next_id "main" "/other" true session).0 ≡ ok (already_exists place ∷ [])
unfolding create ◌>>=◌
made_before = refl

newline_at_end : slug_match (codes "ab\n") ≡ true
unfolding slug_match
newline_at_end = refl

one_letter : slug_match (codes "a") ≡ false
unfolding slug_match
one_letter = refl
