-- ===== src/Storage/Bounds.antt =====
-- The loop that copies a stream: it succeeds exactly when the stream fits, writes then all of it, and
-- never writes more than one chunk past the limit.
use mathlib.Core.List.{append_assoc, append-nil}
use invenio_files_rest.Prelude.Int.{ℤ, pos, negsuc}
use native.Mathlib.Nat.{add_assoc, zero-add}
use invenio_files_rest.Prelude.{
  ℕ, ◌+◌, ◌≤◌, ◌≡◌, refl, ◌⊎◌, inl, inr, Option, none, some, List, [], ◌∷◌, ◌++◌, arith, ltb, false,
  Bool-cases, Option-cases, ◌∙◌, ap,
}
use invenio_files_rest.Prelude.Tables.{length, length-append}
use invenio_files_rest.Errors.{Error, unexpected_file_size, file_size_error, type_error}
use invenio_files_rest.Schema.{FileSizeLimit}
use invenio_files_rest.Session.{ok, err}
use invenio_files_rest.Limiters.{less_than}
use invenio_files_rest.Storage.Writing.{
  Chunk, Stream, Written, check_sizelimit, check_size, write_chunks, write_stream,
}

-- All the bytes of a stream.
abbrev pub bytes : Stream → List ℕ
bytes [] = []
bytes (c ∷ rest) = c ++ bytes rest

-- `n` bytes are within the limit, which compares only where it has a number.
abbrev pub WithinLimit : Option FileSizeLimit → ℕ → Type 0
WithinLimit none n = Unit
WithinLimit (some l) n = (m : ℕ) × (l.limit ≡ some m) × (n ≤ m)

abbrev pub WithinTotal : Option ℤ → ℕ → Type 0
WithinTotal none n = Unit
WithinTotal (some (pos t)) n = n ≤ t
WithinTotal (some (negsuc t)) n = ⊥

abbrev pub Allowed : Option FileSizeLimit → Option ℤ → ℕ → Type 0
Allowed limit total n = WithinLimit limit n × WithinTotal total n

pub Allowed-le :
    (limit : Option FileSizeLimit) (total : Option ℤ) (m n : ℕ)
    → m ≤ n
    → Allowed limit total n
    → Allowed limit total m
Allowed-le none none m n h w = w
Allowed-le none (some (pos t)) m n h w = (tt, omega arith)
Allowed-le none (some (negsuc t)) m n h w = absurd w.1
Allowed-le (some l) none m n h w = ((w.0.0, w.0.1, omega (arith, w.0.2)), tt)
Allowed-le (some l) (some (negsuc t)) m n h w = absurd w.1
Allowed-le (some l) (some (pos t)) m n h w =
    ((w.0.0, w.0.1, omega (arith, w.0.2)), omega (arith, w.1))

total_cases :
    (l : FileSizeLimit) (m n : ℕ) (total : Option ℤ)
    → l.limit ≡ some m
    → ltb m n ≡ false
    → ((check_sizelimit (some l) n total ≡ ok tt) × Allowed (some l) total n)
      ⊎ ((e : Error) × (check_sizelimit (some l) n total ≡ err e) × (Allowed (some l) total n → ⊥))
unfolding check_sizelimit less_than
total_cases l m n none set fits = inl (ground arith, ((m, set, ground arith), tt))
total_cases l m n (some (negsuc t)) set fits =
    inr (unexpected_file_size "File is bigger than expected.", ground arith, λ w. w.1)
total_cases l m n (some (pos t)) set fits = elim (Bool-cases (ltb t n)) [
  | inl over ↦
      inr (
        unexpected_file_size "File is bigger than expected.",
        ground arith,
        λ w. ground (arith, w.1),
      )
  | inr short ↦ inl (ground arith, ((m, set, ground arith), ground arith))
]

pub check_cases :
    (limit : Option FileSizeLimit) (n : ℕ) (total : Option ℤ)
    → ((check_sizelimit limit n total ≡ ok tt) × Allowed limit total n)
      ⊎ ((e : Error) × (check_sizelimit limit n total ≡ err e) × (Allowed limit total n → ⊥))
unfolding check_sizelimit less_than
check_cases none n none = inl (refl, (tt, tt))
check_cases none n (some (negsuc t)) =
    inr (unexpected_file_size "File is bigger than expected.", refl, λ w. w.1)
check_cases none n (some (pos t)) = elim (Bool-cases (ltb t n)) [
  | inl over ↦
      inr (
        unexpected_file_size "File is bigger than expected.",
        ground arith,
        λ w. ground (arith, w.1),
      )
  | inr fits ↦ inl (ground arith, (tt, ground arith))
]
check_cases (some l) n total = elim (Option-cases l.limit) [
  | inl unset ↦ inr (type_error, ground arith, λ w. cc (w.0.1))
  | inr (m, set) ↦ elim (Bool-cases (ltb m n)) [
    | inl over ↦ inr (file_size_error l.reason, ground arith, λ w. ground (arith, w.0.1, w.0.2))
    | inr fits ↦ total_cases l m n total set fits
  ]
]

pub write_chunks_step :
    (limit : Option FileSizeLimit) (total : Option ℤ) (c : Chunk) (rest : Stream)
    (dst digested : List ℕ) (n : ℕ)
    → check_sizelimit limit n total ≡ ok tt
    → write_chunks limit total (c ∷ rest) dst digested n
      ≡ write_chunks limit total rest (dst ++ c) (digested ++ c) (n + length c)
unfolding write_chunks
write_chunks_step limit total c rest dst digested n h = ground arith

pub write_chunks_stop :
    (limit : Option FileSizeLimit) (total : Option ℤ) (src : Stream) (dst digested : List ℕ) (n : ℕ)
    (e : Error)
    → check_sizelimit limit n total ≡ err e
    → write_chunks limit total src dst digested n
      ≡ record { dst = dst; digested = digested; result = err e }
unfolding write_chunks
write_chunks_stop limit total [] dst digested n e h = ground arith
write_chunks_stop limit total (c ∷ rest) dst digested n e h = ground arith

write_chunks_ok :
    (limit : Option FileSizeLimit) (total : Option ℤ) (src : Stream) (dst digested : List ℕ) (n : ℕ)
    → Allowed limit total (n + length (bytes src))
    → write_chunks limit total src dst digested n ≡ record {
      dst = dst ++ bytes src;
      digested = digested ++ bytes src;
      result = ok (n + length (bytes src));
    }
unfolding write_chunks
write_chunks_ok limit total [] dst digested n w = elim (check_cases limit n total) [
  | inl (e, _) ↦ ground (arith, append-nil dst, append-nil digested)
  | inr (_, _, no_room) ↦ absurd (no_room (Allowed-le limit total n (n + 0) (omega arith) w))
]
write_chunks_ok limit total (c ∷ rest) dst digested n w = elim (check_cases limit n total) [
  | inl (e, _) ↦
      let ih = write_chunks_ok limit total rest (dst ++ c) (digested ++ c) (n + length c) (
        Allowed-le limit total _ (n + length (c ++ bytes rest))
          (omega (arith, length-append {0} c (bytes rest))) w) in
      write_chunks_step limit total c rest dst digested n e
      ∙ ih
      ∙ simp (append_assoc, length-append, add_assoc)
  | inr (_, _, no_room) ↦ absurd (no_room (Allowed-le limit total n _ (omega arith) w))
]

write_chunks_err :
    (limit : Option FileSizeLimit) (total : Option ℤ) (src : Stream) (dst digested : List ℕ) (n : ℕ)
    → (Allowed limit total (n + length (bytes src)) → ⊥)
    → (e : Error) × ((write_chunks limit total src dst digested n).result ≡ err e)
write_chunks_err limit total [] dst digested n no_room = elim (check_cases limit n total) [
  | inl (_, w) ↦ absurd (no_room (Allowed-le limit total (n + 0) n (omega arith) w))
  | inr (e, h, _) ↦
      (e, ap (λ (w : Written). w.result) (write_chunks_stop limit total [] dst digested n e h))
]
write_chunks_err limit total (c ∷ rest) dst digested n no_room = elim (check_cases limit n total) [
  | inl (h, _) ↦
      let (e, ih) =
        write_chunks_err limit total rest (dst ++ c) (digested ++ c) (n + length c) (λ w. no_room (
          Allowed-le limit total _ (n + length c + length (bytes rest))
            (omega (arith, length-append {0} c (bytes rest))) w)) in
      (
        e,
        ap (λ (w : Written). w.result) (write_chunks_step limit total c rest dst digested n h) ∙ ih,
      )
  | inr (e, h, _) ↦ (
    e,
    ap (λ (w : Written). w.result) (write_chunks_stop limit total (c ∷ rest) dst digested n e h),
  )
]

-- The stream has the advertised size, if one is advertised.
abbrev pub HasSize : Option ℤ → ℕ → Type 0
HasSize none n = Unit
HasSize (some (pos t)) n = n ≡ t
HasSize (some (negsuc t)) n = ⊥

pub HasSize-WithinTotal : (total : Option ℤ) (n : ℕ) → HasSize total n → WithinTotal total n
HasSize-WithinTotal none n h = tt
HasSize-WithinTotal (some (negsuc t)) n h = h
HasSize-WithinTotal (some (pos t)) n h = omega (arith, h)

write_all :
    (limit : Option FileSizeLimit) (total : Option ℤ) (src : Stream)
    → Allowed limit total (length (bytes src))
    → write_chunks limit total src [] [] 0
      ≡ record { dst = bytes src; digested = bytes src; result = ok (length (bytes src)) }
write_all limit total src w =
    write_chunks_ok limit total src [] [] 0
      (Allowed-le limit total _ (length (bytes src)) (omega arith) w)
    ∙ simp (zero-add)

pub check_size_ok : (t n : ℕ) → n ≡ t → check_size n (some (pos t)) ≡ ok tt
unfolding check_size
check_size_ok t n h = ground arith

-- A stream that is within the size limit and has the advertised size, where either is given, is
-- written: the destination holds its bytes in order, the digest was fed the same bytes, and their
-- number is returned.
pub write_stream_ok :
    (limit : Option FileSizeLimit) (total : Option ℤ) (src : Stream)
    → WithinLimit limit (length (bytes src))
    → HasSize total (length (bytes src))
    → write_stream limit total src
      ≡ record { dst = bytes src; digested = bytes src; result = ok (length (bytes src)) }
unfolding write_stream check_size
write_stream_ok limit none src w h = rw (write_all limit none src (w, tt)) refl
write_stream_ok limit (some (negsuc t)) src w h = absurd h
write_stream_ok limit (some (pos t)) src w h =
    rw (write_all limit (some (pos t)) src (w, omega arith), check_size_ok t (length (bytes src)) h)
      refl

-- A stream that is longer than the size limit or than the advertised size is refused with an
-- error, however it is cut into chunks.
pub write_stream_err :
    (limit : Option FileSizeLimit) (total : Option ℤ) (src : Stream)
    → (WithinLimit limit (length (bytes src)) × WithinTotal total (length (bytes src)) → ⊥)
    → (e : Error) × ((write_stream limit total src).result ≡ err e)
unfolding write_stream
write_stream_err limit total src no_room =
    let (e, h) =
      write_chunks_err limit total src [] [] 0
        (λ w. no_room (Allowed-le limit total _ (0 + length (bytes src)) (omega arith) w)) in
    (e, rw h refl)
