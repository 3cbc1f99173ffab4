-- ===== src/Cli/Choosing.antt =====
-- What the commands that make a location the default one print, and what is the default one afterwards.
use invenio_files_rest.Prelude.{
  String, Bool, true, false, some, List, [], ◌∷◌, ◌++◌, ◌≡◌, refl, sym, ◌∙◌, ◌==◌, arith,
  Bool-cases, inl, inr, ==→eq, ==_refl,
}
use mathlib.Core.Path.{subst}
use invenio_files_rest.Prelude.Tables.{
  select, update, select_cases, select-count_zero, select-update_self, select-update_other,
  select-update_new, select_unique,
}
use invenio_files_rest.Schema.{Location}
use invenio_files_rest.Session.{Session, ok, pure, ◌>>=◌, ◌>>◌}
use invenio_files_rest.Session.Keeps.{bind-ok}
use invenio_files_rest.Location.{is_default, has_id, has_name, set_row, get_by_name, get_default}
use invenio_files_rest.Cli.{
  Line, unset_default, make_default, set_default, set_as_default, not_found,
}
use invenio_files_rest.Cli.Defaults.{HasOneDefault, set_flag, with_locations, unflagged}

-- A location found stays where it is, but for its flag.
module _ (s : Session) (l : Location) (w : HasOneDefault s.db)
    (here : select (has_id l.id) s.locations ≡ l ∷ []) where
  unflag-select :
      (k : Location)
      → (b : Bool) × (select (has_id l.id) (update (has_id k.id) (set_flag false) s.locations)
          ≡ set_flag b l ∷ [])
  unflag-select k = elim (Bool-cases (k.id == l.id)) [
    | inl e ↦ (
      false,
      subst
          (λ j.
            select (has_id l.id) (update (has_id j) (set_flag false) s.locations)
            ≡ set_flag false l ∷ [])
          (sym (==→eq k.id l.id e))
          (select-update_self (has_id l.id) (set_flag false) s.locations l (λ y. refl) here),
    )
    | inr e ↦ (
      l.default,
      select-update_other (has_id k.id) (has_id l.id) (set_flag false) s.locations
            (λ x h. rw (==→eq x.id k.id h) (e, e))
          ∙ here,
    )
  ]

  unset_then :
      (ls : List Location) × (b : Bool) × (unset_default s ≡ (ok tt, with_locations s ls))
      × (select is_default ls ≡ [])
      × (select (has_id l.id) ls ≡ set_flag b l ∷ [])
  unfolding unset_default ◌>>=◌
  unset_then = elim (select_cases is_default s.locations w.sole) [
    | inl e ↦ (s.locations, l.default, ground (arith, e), e, here)
    | inr (k, e) ↦ (
      update (has_id k.id) (set_flag false) s.locations,
      (unflag-select k).0,
      ground (arith, e),
      select-count_zero is_default (update (has_id k.id) (set_flag false) s.locations)
          (unflagged k s.locations e),
      (unflag-select k).1,
    )
  ]

  -- The session after `make_default`.
  chosen : Session
  chosen = with_locations s (update (has_id l.id) (set_flag true) unset_then.0)

  make_default_lem : make_default l s ≡ (ok (set_as_default (set_flag true l) ∷ []), chosen)
  unfolding make_default ◌>>=◌ chosen
  make_default_lem =
      bind-ok unset_default
        (λ _. set_row l.id (set_flag true) >> pure (set_as_default (set_flag true l) ∷ [])) s
        unset_then.2

  chosen-get_default : get_default chosen ≡ (ok (some (set_flag true l)), chosen)
  unfolding get_default ◌>>=◌ chosen
  chosen-get_default =
      rw
        (select-update_new (has_id l.id) is_default (set_flag true) unset_then.0
          (set_flag unset_then.1 l) unset_then.3 unset_then.4 refl)
        refl

set_default_found :
    (s : Session) (name : String) {l : Location} {t : Session} {lines : List Line}
    → select (has_name name) s.locations ≡ l ∷ []
    → make_default l s ≡ (ok lines, t)
    → set_default name s ≡ (ok (lines ++ not_found name ∷ []), t)
unfolding set_default ◌>>=◌ get_by_name
set_default_found s name e h = ground (arith, e, h)

-- Where at most one location is the default one, no two have the same identifier, and one
-- location has the name that is asked for, set_default returns and prints that this location was
-- set as the default one, and after it also that it was not found; Location.get_default then
-- returns this location.
pub set_default_lem :
    (s : Session) (name : String) (l : Location)
    → HasOneDefault s.db
    → select (has_name name) s.locations ≡ l ∷ []
    → (t : Session) × (set_default name s
        ≡ (ok (set_as_default (set_flag true l) ∷ not_found name ∷ []), t))
      × (get_default t ≡ (ok (some (set_flag true l)), t))
unfolding set_default ◌>>=◌ get_by_name
set_default_lem s name l w e =
    let here : select (has_id l.id) s.locations ≡ l ∷ [] =
      select_unique (has_name name) (has_id l.id) s.locations l e (==_refl l.id) (w.ids l.id) in
    (
      chosen s l w here,
      set_default_found s name e (make_default_lem s l w here),
      chosen-get_default s l w here,
    )
