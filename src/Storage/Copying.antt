-- ===== src/Storage/Copying.antt =====
-- The loop of `_write_stream` on a disk, which checks the sizes before each read and writes each chunk
-- before the next check.
use mathlib.Core.List.{append_assoc, append-nil}
use invenio_files_rest.Prelude.Int.{ℤ}
use invenio_files_rest.Prelude.{
  ℕ, ◌+◌, String, Bool, Option, some, List, [], ◌∷◌, ◌++◌, ◌≡◌, refl, sym, ap, ◌∙◌, inl, inr, arith,
}
use mathlib.Core.Path.{subst}
use invenio_files_rest.Prelude.Tables.{length, length-append}
use invenio_files_rest.Errors.{Error}
use invenio_files_rest.Schema.{FileSizeLimit}
use invenio_files_rest.Session.{Result, ok, err, ⊤}
use invenio_files_rest.Storage.Writing.{Stream, Written, check_sizelimit, write_chunks}
use invenio_files_rest.Storage.Bounds.{
  bytes, Allowed, Allowed-le, check_cases, write_chunks_step, write_chunks_stop,
}
use invenio_files_rest.Storage.Pyfs.{◌>>◌, FileSystem, done, copy_chunks}
use invenio_files_rest.Storage.Laws.{IsFileSystem, then_ok, then_run, then_err, answer_cases}
use invenio_files_rest.Helpers.Checksums.{Digest}

module _ (fs : FileSystem) (digest : Digest) (fileurl : String) (clean_dir : Bool) where
  abbrev folder : String
  folder = fs.dirname fileurl

  abbrev file : String
  file = fs.basename fileurl

  -- The chunks are written one after the other, from a position on.
  abbrev pub write_each : ℕ → Stream → fs.Disk → Result ⊤ × fs.Disk
  write_each position [] d = (ok tt, d)
  write_each position (c ∷ rest) d =
      (fs.write folder file position c >> write_each (position + length c) rest) d

  abbrev copying : Option FileSizeLimit → Option ℤ → Stream → ℕ → ℕ → fs.Disk → Result ℕ × fs.Disk
  copying = copy_chunks fs digest fileurl clean_dir

  module _ (limit : Option FileSizeLimit) (size : Option ℤ) where
    abbrev check : ℕ → fs.Disk → Result ⊤ × fs.Disk
    check n = done (check_sizelimit limit n size)

    check_run :
        (n : ℕ) (d : fs.Disk) → check_sizelimit limit n size ≡ ok tt → check n d ≡ (ok tt, d)
    check_run n d e = ap (λ r. (r, d)) e

    check_stop :
        (n : ℕ) (d : fs.Disk) (x : Error)
        → check_sizelimit limit n size ≡ err x
        → check n d ≡ (err x, d)
    check_stop n d x e = ap (λ r. (r, d)) e

    pub copy_chunks_ok :
        (stream : Stream) (p n : ℕ) (d t : fs.Disk)
        → Allowed limit size (n + length (bytes stream))
        → write_each p stream d ≡ (ok tt, t)
        → copying limit size stream p n d ≡ (ok (n + length (bytes stream)), t)
    unfolding copy_chunks
    copy_chunks_ok [] p n d t w written = elim (check_cases limit n size) [
      | inl (e, _) ↦
          then_run (check n) (λ _. done (ok n)) d d tt (check_run n d e)
          ∙ ap (λ (q : Result ⊤ × fs.Disk). (ok n, q.1)) written
          ∙ ap (λ m. (ok m, t)) (omega arith)
      | inr (_, _, no_room) ↦ absurd (no_room (Allowed-le limit size n (n + 0) (omega arith) w))
    ]
    copy_chunks_ok (c ∷ rest) p n d t w written = elim (check_cases limit n size) [
      | inl (e, _) ↦
          let put = fs.write folder file p c in
          let next = copying limit size rest (p + length c) (n + length c) in
          let total : n + length (c ++ bytes rest) ≡ n + length c + length (bytes rest) =
            omega (arith, length-append {0} c (bytes rest)) in
          let (_, u, first, after) =
            then_ok put (λ _. write_each (p + length c) rest) d t tt written in
          then_run (check n) (λ _. put >> next) d d tt (check_run n d e)
          ∙ then_run put (λ _. next) d u tt first
          ∙ copy_chunks_ok rest (p + length c) (n + length c) u t
              (subst (Allowed limit size) total w) after
          ∙ ap (λ m. (ok m, t)) (sym total)
      | inr (_, _, no_room) ↦ absurd (no_room (Allowed-le limit size n _ (omega arith) w))
    ]

    pub copy_chunks_err :
        (stream : Stream) (p n : ℕ) (d : fs.Disk)
        → (Allowed limit size (n + length (bytes stream)) → ⊥)
        → (e : Error) × (t : fs.Disk) × (copying limit size stream p n d ≡ (err e, t))
    unfolding copy_chunks
    copy_chunks_err [] p n d no_room = elim (check_cases limit n size) [
      | inl (_, w) ↦ absurd (no_room (Allowed-le limit size (n + 0) n (omega arith) w))
      | inr (x, e, _) ↦ (x, d, then_err (check n) (λ _. done (ok n)) d d x (check_stop n d x e))
    ]
    copy_chunks_err (c ∷ rest) p n d no_room =
        let put = fs.write folder file p c in
        let next = copying limit size rest (p + length c) (n + length c) in
        elim (check_cases limit n size) [
          | inr (x, e, _) ↦ (x, d, then_err (check n) (λ _. put >> next) d d x (check_stop n d x e))
          | inl (e, _) ↦
              let checked = then_run (check n) (λ _. put >> next) d d tt (check_run n d e) in
              elim (answer_cases (put d)) [
                | inr (x, t, broken) ↦ (x, t, checked ∙ then_err put (λ _. next) d t x broken)
                | inl (_, u, first) ↦
                    let (x, t, stopped) = copy_chunks_err rest (p + length c) (n + length c) u (λ w.
                      no_room (
                        Allowed-le limit size _ (n + length c + length (bytes rest))
                          (omega (arith, length-append {0} c (bytes rest))) w)) in
                    (x, t, checked ∙ then_run put (λ _. next) d u tt first ∙ stopped)
              ]
        ]

    -- Where no write fails, the loop on the disk answers what the loop of `write_chunks` answers.
    copy_chunks-write_chunks :
        (stream : Stream) (p n : ℕ) (dst digested : List ℕ) (d t : fs.Disk)
        → write_each p stream d ≡ (ok tt, t)
        → (copying limit size stream p n d).0
          ≡ (write_chunks limit size stream dst digested n).result
    unfolding copy_chunks write_chunks
    copy_chunks-write_chunks [] p n dst digested d t written = elim (check_cases limit n size) [
      | inl (e, _) ↦ rw e refl
      | inr (x, e, _) ↦ rw e refl
    ]
    copy_chunks-write_chunks (c ∷ rest) p n dst digested d t written =
        let put = fs.write folder file p c in
        let next = copying limit size rest (p + length c) (n + length c) in
        let (_, u, first, after) =
          then_ok put (λ _. write_each (p + length c) rest) d t tt written in
        elim (check_cases limit n size) [
          | inr (x, e, _) ↦
              ap (λ (q : Result ℕ × fs.Disk). q.0)
                (then_err (check n) (λ _. put >> next) d d x (check_stop n d x e))
              ∙ ap (λ (w : Written). w.result)
                  (sym (write_chunks_stop limit size (c ∷ rest) dst digested n x e))
          | inl (e, _) ↦
              ap (λ (q : Result ℕ × fs.Disk). q.0)
                (then_run (check n) (λ _. put >> next) d d tt (check_run n d e)
                  ∙ then_run put (λ _. next) d u tt first)
              ∙ copy_chunks-write_chunks rest (p + length c) (n + length c) (dst ++ c)
                  (digested ++ c) u t after
              ∙ ap (λ (w : Written). w.result)
                  (sym (write_chunks_step limit size c rest dst digested n e))
        ]

  -- Chunks written at the end of the file are added to it.
  pub write_each-contents :
      (laws : IsFileSystem fs) (stream : Stream) (old : List ℕ) (d t : fs.Disk)
      → fs.contents folder file d ≡ some old
      → write_each (length old) stream d ≡ (ok tt, t)
      → fs.contents folder file t ≡ some (old ++ bytes stream)
  write_each-contents laws [] old d t there written =
      ap (fs.contents folder file) (sym (ap (λ (q : Result ⊤ × fs.Disk). q.1) written))
      ∙ there
      ∙ ap some (sym (append-nil old))
  write_each-contents laws (c ∷ rest) old d t there written =
      let (_, u, first, after) =
        then_ok (fs.write folder file (length old) c) (λ _. write_each (length old + length c) rest)
          d t tt written in
      write_each-contents laws rest (old ++ c) u t
        (laws.write-end folder file old c d u there first)
        (ap (λ n. write_each n rest u) (length-append old c) ∙ after)
      ∙ ap some (append_assoc old c (bytes rest))
