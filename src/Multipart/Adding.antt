-- ===== src/Multipart/Adding.antt =====
-- `Part.get_or_create`: when it returns, what it then leaves, and that it can be called again.
use invenio_files_rest.Prelude.{
  ℕ, none, [], ◌∷◌, ◌≡◌, refl, ◌⊎◌, inl, inr, arith, true, false, Bool-cases, ==_refl,
}
use mathlib.Core.Path.{subst, sym}
use invenio_files_rest.Prelude.Int.{ℤ, pos, negsuc, ltb_ℤ, ◌≤ℤ◌}
use invenio_files_rest.Prelude.Tables.{select, select_cases}
use invenio_files_rest.Errors.{multipart_invalid_part_number}
use invenio_files_rest.Schema.{Part, MultipartObject}
use invenio_files_rest.Session.{Session, Result, ⊤, ok, err, ◌>>=◌}
use invenio_files_rest.Multipart.Sizes.{last_part_number}
use invenio_files_rest.Multipart.Parts.{is_part, has_id, get_or_create, get_or_none, create}
use invenio_files_rest.Multipart.Numbers.{IsNumbered}

abbrev pub new_part : ℕ → ℕ → Part
new_part u n = record { upload_id = u; part_number = n; checksum = none }

-- The session with the new part.
abbrev pub with_part : ℕ → ℕ → Session → Session
with_part u n s = record s { db = record s.db { parts = new_part u n ∷ s.parts } }

there :
    (u n : ℕ) (p : Part) (s : Session)
    → select (is_part u n) s.parts ≡ p ∷ []
    → get_or_create u (pos n) s ≡ (ok tt, s)
unfolding get_or_create get_or_none ◌>>=◌
there u n p s here = ground (arith, here)

module _ (u n : ℕ) (mp : MultipartObject) (last : ℤ) (s : Session)
    (found : select (has_id u) s.multiparts ≡ mp ∷ []) (number : last_part_number mp ≡ ok last)
    (absent : select (is_part u n) s.parts ≡ []) where
  past_last :
      ltb_ℤ last (pos n) ≡ true → get_or_create u (pos n) s ≡ (err multipart_invalid_part_number, s)
  unfolding get_or_create get_or_none create ◌>>=◌
  past_last past = ground (arith, absent, found, number, past)

  in_range : ltb_ℤ last (pos n) ≡ false → get_or_create u (pos n) s ≡ (ok tt, with_part u n s)
  unfolding get_or_create get_or_none create ◌>>=◌
  in_range fits = ground (arith, absent, found, number, fits)

  alone : select (is_part u n) (new_part u n ∷ s.parts) ≡ new_part u n ∷ []
  alone = ground (arith, absent, ==_refl u, ==_refl n)

-- Where a part is returned it is in the table once, it is found when it is asked for again, and it
-- was there or its number is in the range of the upload; else the number is out of the range.
abbrev pub IsGot : ℕ → ℤ → ℤ → Session → Result ⊤ × Session → Type 0
IsGot u n last s (ok _, t) =
    (k : ℕ) × (p : Part) × (n ≡ pos k)
    × (select (is_part u k) t.parts ≡ p ∷ [])
    × (get_or_create u n t ≡ (ok tt, t))
    × ((t ≡ s) ⊎ ((n ≤ℤ last) × (t ≡ with_part u k s)))
IsGot u n last s (err e, t) =
    (e ≡ multipart_invalid_part_number)
    × (t ≡ s)
    × ((k : ℕ) → n ≡ pos k → (select (is_part u k) s.parts ≡ []) × (n ≤ℤ last → ⊥))

negative :
    (u n : ℕ) (s : Session) → get_or_create u (negsuc n) s ≡ (err multipart_invalid_part_number, s)
unfolding get_or_create get_or_none create ◌>>=◌
negative u n s = refl

-- For an upload that is there, one row, with a chunk size that is not 0, in tables where no
-- upload has two parts of the same number, Part.get_or_create either returns, with the part in
-- the table once, the session as it was but for the new row where there was none, and a second
-- call that returns and changes nothing; or it raises MultipartInvalidPartNumber and changes
-- nothing. It creates a row only for a number from 0 to the last part's, and raises only for a
-- negative number or one past the last part's that has no row.
pub get_or_create_twice :
    (u : ℕ) (n : ℤ) (mp : MultipartObject) (last : ℤ) (s : Session)
    → IsNumbered s.db
    → select (has_id u) s.multiparts ≡ mp ∷ []
    → last_part_number mp ≡ ok last
    → IsGot u n last s (get_or_create u n s)
get_or_create_twice u (negsuc n) mp last s w found number =
    subst (IsGot u (negsuc n) last s) (sym (negative u n s)) (refl, refl, λ k e. ground (arith, e))
get_or_create_twice u (pos n) mp last s w found number =
    elim (select_cases (is_part u n) s.parts (w u n)) [
      | inr (p, here) ↦
          let again = there u n p s here in
          subst (IsGot u (pos n) last s) (sym again) (n, p, refl, here, again, inl refl)
      | inl absent ↦ elim (Bool-cases (ltb_ℤ last (pos n))) [
        | inl past ↦
            subst (IsGot u (pos n) last s) (sym (past_last u n mp last s found number absent past))
              (
                refl,
                refl,
                λ k e. (
                  subst (λ (m : ℕ). select (is_part u m) s.parts ≡ []) (ground (arith, e)) absent,
                  λ le. ground (arith, past, le),
                ),
              )
        | inr fits ↦
            let here = alone u n mp last s found number absent in
            subst (IsGot u (pos n) last s) (sym (in_range u n mp last s found number absent fits)) (
              n,
              new_part u n,
              refl,
              here,
              there u n (new_part u n) (with_part u n s) here,
              inr (ground (arith, fits), refl),
            )
      ]
    ]
