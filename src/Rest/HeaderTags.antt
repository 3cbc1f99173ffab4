-- ===== src/Rest/HeaderTags.antt =====
-- The tags that a request may carry.
use mathlib.Core.List.{append_assoc, append-nil}
use invenio_files_rest.Prelude.{
  String, ◌≡◌, refl, ◌⊎◌, inl, inr, true, false, [], ◌∷◌, ◌++◌, arith, Bool-cases, eq_iff, str_eq,
  ap, ◌↔◌, sym, if◌then◌else◌,
}
use invenio_files_rest.Errors.{Error, duplicate_tag, invalid_tag}
use invenio_files_rest.Session.{ok, err}
use invenio_files_rest.Rest.Factories.{Tags, validate_tag, has_key, read_tags}

-- Every pair is a valid tag; no key comes twice.
abbrev pub AllValid : Tags → Type 0
AllValid [] = Unit
AllValid ((k, v) ∷ ts) = (validate_tag k v ≡ true) × AllValid ts

abbrev pub NoRepeat : Tags → Type 0
NoRepeat [] = Unit
NoRepeat ((k, v) ∷ ts) = (has_key k ts ≡ false) × NoRepeat ts

-- No key of the first list is one of the second.
abbrev Apart : Tags → Tags → Type 0
Apart [] seen = Unit
Apart ((k, v) ∷ ts) seen = (has_key k seen ≡ false) × Apart ts seen

has_key-snoc :
    (k j v : String) (ts : Tags)
    → has_key k (ts ++ (j, v) ∷ []) ≡ (if has_key k ts then true else str_eq j k)
has_key-snoc k j v [] = ground arith
has_key-snoc k j v ((i, w) ∷ ts) = ground (arith, has_key-snoc k j v ts)

Apart-snoc :
    (ts seen : Tags) (j v : String)
    → Apart ts (seen ++ (j, v) ∷ []) ↔ (Apart ts seen × (has_key j ts ≡ false))
Apart-snoc [] seen j v = (λ h. (tt, refl), λ h. tt)
Apart-snoc ((k, w) ∷ ts) seen j v =
    let ih = Apart-snoc ts seen j v in
    (
      λ h.
          let p = ih.0 h.1 in
          (
            (ground (arith, h.0, has_key-snoc k j v seen), p.0),
            ground (arith, h.0, has_key-snoc k j v seen, p.1, eq_iff j k, eq_iff k j),
          ),
      λ h. (
        ground (arith, h.0.0, h.1, has_key-snoc k j v seen, eq_iff j k, eq_iff k j),
        ih.1 (h.0.1, ground (arith, h.1)),
      ),
    )

abbrev Outcome : Tags → Tags → Type 0
Outcome ts seen =
    ((read_tags ts seen ≡ ok (seen ++ ts)) × AllValid ts × NoRepeat ts × Apart ts seen)
    ⊎ ((e : Error) × (read_tags ts seen ≡ err e) × (AllValid ts × NoRepeat ts × Apart ts seen → ⊥))

outcome : (ts seen : Tags) → Outcome ts seen
unfolding read_tags
outcome [] seen = inl (ap (λ l. ok l) (sym (append-nil seen)), tt, tt, tt)
outcome ((k, v) ∷ ts) seen = elim (Bool-cases (has_key k seen)) [
  | inl old ↦ inr (duplicate_tag, ground arith, λ w. cc (old, w.2.0))
  | inr new ↦ elim (Bool-cases (validate_tag k v)) [
    | inr bad ↦ inr (invalid_tag, ground arith, λ w. cc (bad, w.0.0))
    | inl good ↦ elim (outcome ts (seen ++ (k, v) ∷ [])) [
      | inl (run, valid, once, apart) ↦
          let p = (Apart-snoc ts seen k v).0 apart in
          inl (
            ground (arith, run, append_assoc seen ((k, v) ∷ []) ts),
            (good, valid),
            (p.1, once),
            (new, p.0),
          )
      | inr (e, run, no_way) ↦ inr (
        e,
        ground (arith, run),
        λ w. no_way (w.0.1, w.1.1, (Apart-snoc ts seen k v).1 (w.2.1, w.1.0)),
      )
    ]
  ]
]

Apart-nil : (ts : Tags) → Apart ts []
Apart-nil [] = tt
Apart-nil (t ∷ ts) = (refl, Apart-nil ts)

-- Reading the tags of a request gives exactly the pairs of the header, in their order, when all
-- are valid and no key comes twice, and raises when one of them is not valid or a key is
-- repeated.
pub read_tags_lem :
    (ts : Tags)
    → ((read_tags ts [] ≡ ok ts) × AllValid ts × NoRepeat ts)
      ⊎ ((e : Error) × (read_tags ts [] ≡ err e) × (AllValid ts × NoRepeat ts → ⊥))
read_tags_lem ts = elim (outcome ts []) [
  | inl (run, valid, once, apart) ↦ inl (run, valid, once)
  | inr (e, run, no_way) ↦ inr (e, run, λ w. no_way (w.0, w.1, Apart-nil ts))
]
