-- ===== src/Cli/Defaults.antt =====
-- The default location and the steps of the commands of cli.py.
use mathlib.Core.Path.{subst}
use native.Mathlib.Nat.{le_trans}
use invenio_files_rest.Prelude.{
  ℕ, String, Bool, true, false, List, [], ◌∷◌, ◌≡◌, refl, sym, ◌∙◌, ◌≤◌, ◌&&◌, ◌||◌, ltb, not,
  arith, Bool-cases, inl, inr, ==→eq, ==_refl,
}
use invenio_files_rest.Prelude.Tables.{
  select, count, update, count-update_same, count-select, select_cases, count-update_bound,
  count_mono, count-select_nil,
}
use invenio_files_rest.Schema.{Db, Location}
use invenio_files_rest.Session.{Session, ok, ◌>>=◌, ◌>>◌, pure}
use invenio_files_rest.Session.Keeps.{Keeps, keeps_rules, bind-known}
use invenio_files_rest.Location.{
  is_default, has_id, get_by_name, set_row, validate_name, all, slug_match, codes,
}
use Prim.Native.String.{count as text_count}
use invenio_files_rest.Cli.{
  unset_default, add_location, insert_location, make_default, set_default, new_location,
  set_as_default,
}

-- One location at most is the default one, and no two have the same identifier.
pub record HasOneDefault (d : Db) : Type 0 where
  pub sole : count is_default d.locations ≤ 1
  pub ids : (i : ℕ) → count (has_id i) d.locations ≤ 1

abbrev pub with_locations : Session → List Location → Session
with_locations s ls = record s { db = record s.db { locations = ls } }

abbrev pub set_flag : Bool → Location → Location
set_flag b l = record l { default = b }

-- Taking the flag from the row that has it leaves none.
count-unflag :
    (p : Location → Bool) (ls : List Location)
    → count is_default (update p (set_flag false) ls) ≡ count (λ x. not (p x) && is_default x) ls
count-unflag p [] = refl
count-unflag p (l ∷ ls) = ground (arith, count-unflag p ls)

pub unflagged :
    (l : Location) (ls : List Location)
    → select is_default ls ≡ l ∷ []
    → count is_default (update (has_id l.id) (set_flag false) ls) ≡ 0
unflagged l ls e =
    count-unflag (has_id l.id) ls
    ∙ sym (count-select (λ x. not (has_id l.id x)) is_default ls)
    ∙ rw e (ground (arith, ==_refl l.id))

unset_default_lem :
    (s : Session)
    → HasOneDefault s.db
    → (ls : List Location) × (unset_default s ≡ (ok tt, with_locations s ls))
      × (count is_default ls ≡ 0)
      × ((i : ℕ) → count (has_id i) ls ≡ count (has_id i) s.locations)
unfolding unset_default ◌>>=◌
unset_default_lem s w = elim (select_cases is_default s.locations w.sole) [
  | inl e ↦ (s.locations, ground (arith, e), count-select_nil is_default s.locations e, λ i. refl)
  | inr (l, e) ↦ (
    update (has_id l.id) (set_flag false) s.locations,
    ground (arith, e),
    unflagged l s.locations e,
    λ i. count-update_same (has_id l.id) (has_id i) (set_flag false) s.locations (λ x. refl),
  )
]

module _ (new_id : List Location → ℕ)
    (new_id_fresh : (ls : List Location) → select (has_id (new_id ls)) ls ≡ []) where
  with_new-HasOneDefault :
      (l : Location) (d : Db)
      → HasOneDefault d
      → (l.default ≡ true → count is_default d.locations ≡ 0)
      → select (has_id l.id) d.locations ≡ []
      → HasOneDefault (record d { locations = l ∷ d.locations })
  with_new-HasOneDefault l d w none_before fresh = record {
    sole = elim (Bool-cases l.default) [
      | inl e ↦ rw e (rw (none_before e) (ground arith))
      | inr e ↦ rw e w.sole
    ];
    ids = λ i. elim (Bool-cases (has_id i l)) [
      | inl e ↦
          subst (λ j. count (has_id j) (l ∷ d.locations) ≤ 1) (==→eq l.id i e)
            (rw (==_refl l.id)
              (rw (count-select_nil (has_id l.id) d.locations fresh) (ground arith)))
      | inr e ↦ rw e (w.ids i)
    ];
  }

  inserted :
      (name uri : String) (default : Bool) (s : Session)
      → HasOneDefault s.db
      → (default ≡ true → count is_default s.locations ≡ 0)
      → HasOneDefault (insert_location new_id name uri default s).1.db
  unfolding insert_location ◌>>=◌ validate_name all
  inserted name uri default s w none_before =
      elim (Bool-cases (not (slug_match (codes name)) || ltb 20 (text_count name))) [
        | inl e ↦ rw e w
        | inr e ↦ rw e (
            with_new-HasOneDefault (new_location (new_id s.locations) name uri default) s.db w
              none_before (new_id_fresh s.locations))
      ]

  pub add_location-Keeps :
      (name uri : String) (default : Bool)
      → Keeps HasOneDefault (add_location new_id name uri default)
  unfolding add_location ◌>>=◌
  add_location-Keeps name uri true = record {
    at = λ s w.
        let (ls, e, zero, same) = unset_default_lem s w in
        bind-known HasOneDefault unset_default (λ _. insert_location new_id name uri true) s e
          (inserted name uri true (with_locations s ls)
            (record { sole = rw zero (ground arith); ids = λ i. rw (same i) (w.ids i) })
            (λ p. zero));
  }
  add_location-Keeps name uri false = record { at = λ s w. inserted name uri false s w (λ p. cc p) }

set_row-HasOneDefault :
    (l : Location) (d : Db)
    → count is_default d.locations ≡ 0
    → ((i : ℕ) → count (has_id i) d.locations ≤ 1)
    → HasOneDefault (record d { locations = update (has_id l.id) (set_flag true) d.locations })
set_row-HasOneDefault l d zero ids = record {
  sole = le_trans (count-update_bound (has_id l.id) is_default (set_flag true) d.locations) (
      rw zero (
        le_trans (omega arith) (
          le_trans
            (count_mono (λ x. has_id l.id x && is_default (set_flag true x)) (has_id l.id)
              d.locations (λ x e. ground arith))
            (ids l.id))));
  ids = λ i.
      rw (count-update_same (has_id l.id) (has_id i) (set_flag true) d.locations (λ x. refl))
        (ids i);
}

make_default-Keeps : (l : Location) → Keeps HasOneDefault (make_default l)
unfolding make_default ◌>>=◌
make_default-Keeps l = record {
  at = λ s w.
      let (ls, e, zero, same) = unset_default_lem s w in
      bind-known HasOneDefault unset_default
        (λ _. set_row l.id (set_flag true) >> pure (set_as_default (set_flag true l) ∷ [])) s e
        (set_row-HasOneDefault l (with_locations s ls).db zero (λ i. rw (same i) (w.ids i)));
}

pub set_default-Keeps : (name : String) → Keeps HasOneDefault (set_default name)
unfolding set_default get_by_name
set_default-Keeps name = search (keeps_rules, make_default-Keeps) depth 12
