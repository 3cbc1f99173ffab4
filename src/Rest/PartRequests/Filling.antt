-- ===== src/Rest/PartRequests/Filling.antt =====
-- Creating and filling a part: where that returns, the part is in the table.
use mathlib.Core.Path.{subst}
use invenio_files_rest.Prelude.{
  ℕ, String, Bool, Option, List, [], ◌∷◌, ◌≡◌, refl, sym, ◌≤◌, inl, inr, arith, Bool-cases, ==_refl,
}
use invenio_files_rest.Prelude.Int.{ℤ, pos, negsuc, ltb_ℤ}
use invenio_files_rest.Prelude.Tables.{
  select, count, update, select-passes, count-update_same, some_row, count_pos,
}
use invenio_files_rest.Errors.{multiple_results, multipart_invalid_part_number}
use invenio_files_rest.Multipart.Sizes.{last_part_number}
use invenio_files_rest.Schema.{Db, Part, FileInstance as FileRow}
use invenio_files_rest.Session.{
  Session, Action, Result, ok, err, ⊤, lift, raise_if, ◌>>=◌, modify_parts, modify_files, if_some,
}
use invenio_files_rest.Session.Keeps.{Keeps, keeps_rules}
use invenio_files_rest.Storage.{Backend}
use invenio_files_rest.Storage.Writing.{Stream}
use invenio_files_rest.FileInstance
use invenio_files_rest.Multipart.Parts as Parts
use invenio_files_rest.Multipart.Parts.{is_part}
use invenio_files_rest.Multipart.Numbers.{IsNumbered, part-Keeps, fill-Keeps}
use invenio_files_rest.Rest.Uploads.{fill_part}

-- The part is in the table.
abbrev pub Has : ℕ → ℕ → Db → Type 0
Has u n d = 1 ≤ count (is_part u n) d.parts

checksum-Has :
    (u n : ℕ) (q : Part → Bool) (c : Option String)
    → Keeps (Has u n) (modify_parts (update q (λ p. record p { checksum = c })))
unfolding modify_parts
checksum-Has u n q c = record {
  at = λ s w.
      rw (count-update_same q (is_part u n) (λ p. record p { checksum = c }) s.parts (λ p. refl)) w;
}

files-Has : (u n : ℕ) (f : List FileRow → List FileRow) → Keeps (Has u n) (modify_files f)
unfolding modify_files
files-Has u n f = record { at = λ s w. w }

fill-Has :
    (backend : Backend) (u n : ℕ) (stream : Stream)
    → Keeps (Has u n) (Parts.set_contents backend u n stream)
unfolding Parts.set_contents FileInstance.update_contents FileInstance.ensure_writable
fill-Has backend u n stream = search (keeps_rules, checksum-Has, files-Has) depth 16

-- A part that is got or created is there.
abbrev HasIn : ℕ → ℕ → Result ⊤ × Session → Type 0
HasIn u n (ok _, t) = Has u n t.db
HasIn u n (err e, t) = Unit

add_part-Has : (u n : ℕ) (s : Session) → HasIn u n (Parts.add_part u n s)
unfolding ◌>>=◌
add_part-Has u n s = elim (Bool-cases (some_row (select (is_part u n) s.parts))) [
  | inl there ↦ rw (there, HasIn) tt
  | inr absent ↦ ground (arith, absent, ==_refl u, ==_refl n)
]

bind-HasIn :
    {A : Type 0} (u n : ℕ) (m : Action A) (f : A → Action ⊤) (s : Session)
    → ((a : A) (t : Session) → HasIn u n (f a t))
    → HasIn u n ((m >>= f) s)
unfolding ◌>>=◌
bind-HasIn {A = A} u n m f s h = go (m s)
  where
    go : (p : Result A × Session) → HasIn u n (◌>>=◌ (λ _. p) f s)
    go (ok a, t) = h a t
    go (err e, t) = tt

create-HasIn : (u n : ℕ) (s : Session) → HasIn u n (Parts.create u (pos n) s)
unfolding Parts.create
create-HasIn u n s = bind-HasIn u n (Parts.row u) _ s λ mp t.
    bind-HasIn u n (lift (last_part_number mp)) _ t λ last v.
      bind-HasIn u n (raise_if (ltb_ℤ last (pos n)) multipart_invalid_part_number) _ v
        λ _ x. add_part-Has u n x

found-HasIn :
    (u n : ℕ) (s : Session) (l : List Part)
    → select (is_part u n) s.parts ≡ l
    → HasIn u n (Parts.get_or_create u (pos n) s)
unfolding Parts.get_or_create Parts.get_or_none ◌>>=◌
found-HasIn u n s [] e =
    let same : Parts.get_or_create u (pos n) s ≡ Parts.create u (pos n) s = ground (arith, e) in
    subst (HasIn u n) (sym same) (create-HasIn u n s)
found-HasIn u n s (p ∷ []) e =
    let same : Parts.get_or_create u (pos n) s ≡ (ok tt, s) = ground (arith, e) in
    subst (HasIn u n) (sym same) (
      count_pos (is_part u n) (is_part u n) s.parts p e
        (select-passes (is_part u n) s.parts p [] e))
found-HasIn u n s (p ∷ q ∷ l) e =
    let same : Parts.get_or_create u (pos n) s ≡ (err multiple_results, s) = ground (arith, e) in
    subst (HasIn u n) (sym same) tt

-- Filling a part returns only where the part is there.
pub fill_part-Has :
    (backend : Backend) (u : ℕ) (n : ℤ) (stream : Stream) (s t : Session)
    → fill_part backend u n stream s ≡ (ok tt, t)
    → (k : ℕ) × (n ≡ pos k) × Has u k t.db
unfolding fill_part ◌>>=◌ if_some Parts.get_or_create
fill_part-Has backend u (negsuc n) stream s t e = cc
fill_part-Has backend u (pos n) stream s t e = (
  n,
  refl,
  subst (HasIn u n) e (
      go (Parts.get_or_create u (pos n) s) (found-HasIn u n s (select (is_part u n) s.parts) refl)),
)
  where
    after : (p : Result ⊤ × Session) → Has u n p.1.db → HasIn u n p
    after (ok _, v) h = h
    after (err x, v) h = tt

    go :
        (p : Result ⊤ × Session)
        → HasIn u n p
        → HasIn u n (◌>>=◌ (λ _. p) (λ _. Parts.set_contents backend u n stream) s)
    go (ok _, v) h =
        after (Parts.set_contents backend u n stream v) ((fill-Has backend u n stream).at v h)
    go (err x, v) h = tt

pub fill_part-IsNumbered :
    (backend : Backend) (u : ℕ) (n : ℤ) (stream : Stream)
    → Keeps IsNumbered (fill_part backend u n stream)
unfolding fill_part
fill_part-IsNumbered backend u (pos n) stream = search (keeps_rules, part-Keeps, fill-Keeps) depth 9
fill_part-IsNumbered backend u (negsuc n) stream =
    search (keeps_rules, part-Keeps, fill-Keeps) depth 9
