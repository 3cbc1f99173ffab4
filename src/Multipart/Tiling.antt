-- ===== src/Multipart/Tiling.antt =====
-- The parts of an upload tile its file: each byte lies in exactly one part.
use invenio_files_rest.Prelude.{
  ℕ, ◌+◌, ◌*◌, ◌/◌, ◌%◌, ◌≤◌, ◌<◌, ◌≡◌, inl, inr, ◌==◌, arith, ap, Bool-cases, ◌⊎◌, ◌↔◌, ==→eq,
}
use native.Mathlib.Nat.{mod-lt, div-add-mod, div-eq_of_lt-le}
use native.Mathlib.Decide.{dec_lt}
use invenio_files_rest.Prelude.Int.{ℤ, pos, ◌≤ℤ◌, -ℤ_parts}
use invenio_files_rest.Session.{Result, ok, err}
use invenio_files_rest.Schema.{MultipartObject}
use invenio_files_rest.Multipart.Sizes.{
  last_part_number, last_part_size, start_byte, end_byte, part_size,
}

-- `n` is the number of a part of the upload.
abbrev pub IsUpTo : ℕ → Result ℤ → Type 0
IsUpTo n (ok last) = pos n ≤ℤ last
IsUpTo n (err e) = ⊥

abbrev pub IsPart : MultipartObject → ℕ → Type 0
IsPart mp n = IsUpTo n (last_part_number mp)

mul_mono : (a b c : ℕ) → a ≤ b → a * c ≤ b * c
mul_mono a b c h = grind arith

-- With a rest, the number of the last part is the quotient; with none, it is one less.
below_quotient : (n d c : ℕ) → 0 < c → 0 < d % c → (n ≤ d / c) ↔ (n * c < d)
below_quotient n d c pos_c rest = (
  λ h. omega (arith, mul_mono n (d / c) c h, div-add-mod d c),
  λ h. grind (arith, mod-lt d pos_c, div-add-mod d c, mul_mono (d / c + 1) n c),
)

below_exact : (n d c : ℕ) → 0 < c → d % c ≡ 0 → (n + 1 ≤ d / c) ↔ (n * c < d)
below_exact n d c pos_c exact = (
  λ h. omega (arith, mul_mono (n + 1) (d / c) c h, div-add-mod d c),
  λ h. grind (arith, div-add-mod d c, mul_mono (d / c) n c),
)

-- A part is one that begins before the end of the file.
pub IsPart-iff :
    (mp : MultipartObject) (n : ℕ)
    → 0 < mp.chunk_size
    → 0 < mp.size
    → IsPart mp n ↔ (start_byte mp n < mp.size)
unfolding last_part_number start_byte
IsPart-iff mp n c z = elim (Bool-cases (mp.size % mp.chunk_size == 0)) [
  | inl exact ↦
      let b = below_exact n mp.size mp.chunk_size c (==→eq _ _ exact) in
      (
        λ h. b.0 (ground (arith, -ℤ_parts (pos (mp.size / mp.chunk_size)) (pos 1))),
        λ h. ground (arith, b.1 h, -ℤ_parts (pos (mp.size / mp.chunk_size)) (pos 1)),
      )
  | inr rest ↦
      let b = below_quotient n mp.size mp.chunk_size c (ground arith) in
      ((λ h. b.0 (ground arith)), λ h. ground (arith, b.1 h))
]

module _ (mp : MultipartObject) (c : 0 < mp.chunk_size) (z : 0 < mp.size) where
  -- For an upload of positive size and chunk size, each byte of the file lies in exactly one
  -- part: a number that is at most last_part_number has the byte between its first and its last
  -- exactly if it is the quotient of the byte's position by the chunk size.
  pub parts_tile :
      (i : ℕ)
      → i < mp.size
      → (n : ℕ)
      → (IsPart mp n × (start_byte mp n ≤ i) × (i < end_byte mp n)) ↔ (n ≡ i / mp.chunk_size)
  unfolding start_byte end_byte
  parts_tile i h n =
      let q = i / mp.chunk_size in
      let low : q * mp.chunk_size ≤ i = omega (arith, div-add-mod i mp.chunk_size) in
      let high : i < (q + 1) * mp.chunk_size =
        omega (arith, div-add-mod i mp.chunk_size, mod-lt i c) in
      let part : IsPart mp q = (IsPart-iff mp q c z).1 (unfold start_byte in omega arith) in
      (
        λ (_, from, to).
            grind (arith, mul_mono (n + 1) q mp.chunk_size, mul_mono (q + 1) n mp.chunk_size),
        λ e. rw e (part, low, omega arith),
      )

  -- For an upload of positive size and chunk size, a part that ends within the file has the size
  -- of a chunk, and a part that the end of the file cuts short has at least one byte and the size
  -- that last_part_size gives.
  pub part_size_lem :
      (n : ℕ)
      → IsPart mp n
      → (((n + 1) * mp.chunk_size ≤ mp.size) × (part_size mp n ≡ mp.chunk_size))
        ⊎ ((mp.size < (n + 1) * mp.chunk_size)
            × (last_part_size mp ≡ ok (part_size mp n))
            × (0 < part_size mp n))
  unfolding start_byte end_byte part_size last_part_size
  part_size_lem n h =
      let begins : n * mp.chunk_size < mp.size = unfold start_byte in (IsPart-iff mp n c z).0 h in
      elim (dec_lt mp.size ((n + 1) * mp.chunk_size)) [
        | no whole ↦ inl (omega arith, omega arith)
        | yes cut ↦
            let q : mp.size / mp.chunk_size ≡ n =
              div-eq_of_lt-le {k = n} mp.chunk_size (omega arith) cut in
            let split = div-add-mod mp.size mp.chunk_size in
            inr (cut, grind (arith, ap (λ (t : ℕ). mp.chunk_size * t) q, split), omega arith)
      ]
