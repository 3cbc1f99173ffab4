-- ===== src/Multipart/Completing.antt =====
-- `MultipartObject.complete`: it counts the parts, and by that knows that each part is there.
use invenio_files_rest.Prelude.{
  ℕ, zero, suc, ◌+◌, ◌≡◌, ◌≤◌, ◌<◌, refl, ◌⊎◌, inl, inr, Bool, false, List, [], ◌∷◌, ◌&&◌, ◌==◌,
  ltb, arith, Bool-cases, ==→eq,
}
use invenio_files_rest.Prelude.Int.{pos, ◌+ℤ◌}
use invenio_files_rest.Prelude.Tables.{select, count}
use invenio_files_rest.Errors.{multipart_missing_parts}
use invenio_files_rest.Schema.{MultipartObject, Part}
use invenio_files_rest.Session.{Session, ok, err, ◌>>=◌}
use invenio_files_rest.Multipart.Sizes.{last_part_number}
use invenio_files_rest.Multipart.Parts.{has_id, part_of, is_part, part_count}
use invenio_files_rest.Multipart.Uploads.{complete}

-- The parts `0` to `n - 1` are there, each once; one of them is missing.
abbrev pub AllPresent : ℕ → ℕ → List Part → Type 0
AllPresent u zero ps = Unit
AllPresent u (suc n) ps = (count (is_part u n) ps ≡ 1) × AllPresent u n ps

abbrev pub SomeMissing : ℕ → ℕ → List Part → Type 0
SomeMissing u zero ps = ⊥
SomeMissing u (suc n) ps = (count (is_part u n) ps ≡ 0) ⊎ SomeMissing u n ps

abbrev below : ℕ → ℕ → Part → Bool
below u n p = part_of u p && ltb p.part_number n

-- What `Part.create` and the primary key provide: no number twice and none past the last.
pub record PartsFit (u last : ℕ) (ps : List Part) : Type 0 where
  pub unique : (n : ℕ) → count (is_part u n) ps ≤ 1
  pub none_past : select (λ p. part_of u p && ltb last p.part_number) ps ≡ []

count-below-suc :
    (u n : ℕ) (ps : List Part)
    → count (below u (suc n)) ps ≡ count (below u n) ps + count (is_part u n) ps
count-below-suc u n [] = omega arith
count-below-suc u n (p ∷ ps) = ground (arith, count-below-suc u n ps, ==→eq p.part_number n)

count-below_zero : (u : ℕ) (ps : List Part) → count (below u 0) ps ≡ 0
count-below_zero u [] = refl
count-below_zero u (p ∷ ps) = ground (arith, count-below_zero u ps)

count_all :
    (u last : ℕ) (ps : List Part)
    → select (λ p. part_of u p && ltb last p.part_number) ps ≡ []
    → count (part_of u) ps ≡ count (below u (suc last)) ps
count_all u last [] h = refl
count_all u last (p ∷ ps) h = ground (arith, count_all u last ps)

present_or_missing :
    (u n : ℕ) (ps : List Part)
    → ((k : ℕ) → count (is_part u k) ps ≤ 1)
    → ((count (below u n) ps ≡ n) × AllPresent u n ps)
      ⊎ ((count (below u n) ps < n) × SomeMissing u n ps)
present_or_missing u zero ps unique = inl (count-below_zero u ps, tt)
present_or_missing u (suc n) ps unique = elim (present_or_missing u n ps unique) [
  | inl (many, all) ↦ elim (Bool-cases (count (is_part u n) ps == 0)) [
    | inl gone ↦ inr (ground (arith, count-below-suc u n ps), inl (ground arith))
    | inr there ↦
        inl (ground (arith, unique n, count-below-suc u n ps), (ground (arith, unique n), all))
  ]
  | inr (few, missing) ↦ inr (ground (arith, unique n, count-below-suc u n ps), inr missing)
]

completes :
    (u last : ℕ) (mp : MultipartObject) (s : Session)
    → select (has_id u) s.multiparts ≡ mp ∷ []
    → mp.completed ≡ false
    → last_part_number mp ≡ ok (pos last)
    → count (part_of u) s.parts ≡ suc last
    → (complete u s).0 ≡ ok tt
unfolding complete part_count ◌>>=◌ ◌+ℤ◌
completes u last mp s upload open_ number many = ground arith

refuses :
    (u last : ℕ) (mp : MultipartObject) (s : Session)
    → select (has_id u) s.multiparts ≡ mp ∷ []
    → mp.completed ≡ false
    → last_part_number mp ≡ ok (pos last)
    → count (part_of u) s.parts < suc last
    → complete u s ≡ (err multipart_missing_parts, s)
unfolding complete part_count ◌>>=◌ ◌+ℤ◌
refuses u last mp s upload open_ number few = ground arith

-- For an upload that is not completed, has no part number twice and none past the last one,
-- complete either returns, and then every part from 0 to the last is there exactly once, or
-- raises MultipartMissingParts and changes nothing, and then a part is missing.
pub complete_lem :
    (u last : ℕ) (mp : MultipartObject) (s : Session)
    → select (has_id u) s.multiparts ≡ mp ∷ []
    → mp.completed ≡ false
    → last_part_number mp ≡ ok (pos last)
    → PartsFit u last s.parts
    → (((complete u s).0 ≡ ok tt) × AllPresent u (suc last) s.parts)
      ⊎ ((complete u s ≡ (err multipart_missing_parts, s)) × SomeMissing u (suc last) s.parts)
complete_lem u last mp s upload open_ number fit =
    elim (present_or_missing u (suc last) s.parts fit.unique) [
      | inl (many, all) ↦ inl (
        completes u last mp s upload open_ number
            (omega (arith, many, count_all u last s.parts fit.none_past)),
        all,
      )
      | inr (few, missing) ↦ inr (
        refuses u last mp s upload open_ number
            (omega (arith, few, count_all u last s.parts fit.none_past)),
        missing,
      )
    ]
