-- ===== src/Storage/Tests.antt =====
-- A stream of five bytes in two chunks, written under a limit of five bytes and of four.
use mathlib.Core.List.{append-nil, append_assoc}
use invenio_files_rest.Prelude.Int.{pos}
use invenio_files_rest.Prelude.{
  ℕ, zero, suc, true, false, ◌≡◌, refl, sym, ap, ◌∙◌, Option, none, some, List, [], ◌∷◌, ◌++◌,
  arith,
}
use invenio_files_rest.Prelude.Tables.{length}
use invenio_files_rest.Errors.{Error, not_implemented}
use invenio_files_rest.Schema.{FileSizeLimit}
use invenio_files_rest.Session.{Result, ⊤, ok, err}
use invenio_files_rest.Storage.Writing.{Stream, write_stream, chunk_size_or_default, feed_all}
use invenio_files_rest.Helpers.Checksums.{Digest, IsDigest, compute_checksum}
use invenio_files_rest.Storage.Pyfs.{FileSystem, save, delete, checksum}
use invenio_files_rest.Storage.Laws.{IsFileSystem}
use invenio_files_rest.Storage.Saving.{save-checksum, save_err}
use invenio_files_rest.Storage.Bounds.{bytes, write_stream_ok, write_stream_err}

abbrev stream : Stream
stream = (1 ∷ 2 ∷ 3 ∷ []) ∷ (4 ∷ 5 ∷ []) ∷ []

abbrev limit_of : ℕ → Option FileSizeLimit
limit_of n = some (record { limit = some n; reason = "Maximum file size exceeded." })

write_stream_ok_example :
    write_stream (limit_of 5) (some (pos 5)) stream
    ≡ record { dst = bytes stream; digested = bytes stream; result = ok 5 }
write_stream_ok_example =
    write_stream_ok (limit_of 5) (some (pos 5)) stream (5, refl, omega arith) (omega arith)

write_stream_err_example : (e : Error) × ((write_stream (limit_of 4) none stream).result ≡ err e)
write_stream_err_example =
    write_stream_err (limit_of 4) none stream (λ w. ground (arith, w.0.1, w.0.2))

default_chunk : chunk_size_or_default (some 0) ≡ chunk_size_or_default none
unfolding chunk_size_or_default
default_chunk = refl

fed : feed_all (λ n c. length c ∷ n) [] stream ≡ 2 ∷ 3 ∷ []
unfolding feed_all
fed = refl

abbrev first_bytes : ℕ → List ℕ → List ℕ
first_bytes zero l = []
first_bytes (suc n) [] = []
first_bytes (suc n) (x ∷ l) = x ∷ first_bytes n l

first_bytes_all : (l : List ℕ) → first_bytes (length l) l ≡ l
first_bytes_all [] = refl
first_bytes_all (x ∷ l) = ap (λ r. x ∷ r) (first_bytes_all l)

-- A disk that has one file, whatever it is called, or none.
abbrev Slot : Type 0
Slot = Option (List ℕ)

abbrev open_slot : Slot → Result ⊤ × Slot
open_slot none = (err not_implemented, none)
open_slot (some b) = (ok tt, some b)

abbrev read_slot : Slot → Result Stream
read_slot none = err not_implemented
read_slot (some b) = ok (b ∷ [])

abbrev write_slot : ℕ → List ℕ → Slot → Result ⊤ × Slot
write_slot position new none = (err not_implemented, none)
write_slot position new (some old) = (ok tt, some (first_bytes position old ++ new))

abbrev one_file : FileSystem
one_file = record {
  Disk = Slot;
  contents = λ p n d. d;
  has_directory = λ p n d. false;
  opendir = λ p create d. (ok tt, d);
  open_new = λ p n d. (ok tt, some []);
  open_existing = λ p n. open_slot;
  read = λ p n. read_slot;
  write = λ p n. write_slot;
  truncate = λ p n size. open_slot;
  remove = λ p n d. (ok tt, none);
  removedir = λ p n d. (ok tt, d);
  dirname = λ p. "dir";
  basename = λ p. "data";
  split = λ p. ("", "dir");
}

one_file-IsFileSystem : IsFileSystem one_file
one_file-IsFileSystem = record {
  opendir-contents = λ p n q create d. refl;
  opendir-existing = λ p n b d there. refl;
  open_existing-there = λ p n b d there. rw there refl;
  read-contents = λ p n b d there. (b ∷ [], rw there refl, append-nil b);
  open_new-empty = λ p n d t opened. sym (ap (λ (q : Result ⊤ × Slot). q.1) opened);
  write-end = λ p n old new d t there written.
      sym (ap (λ (q : Result ⊤ × Slot). q.1) (rw there at written))
      ∙ ap (λ l. some (l ++ new)) (first_bytes_all old);
  remove-gone = λ p n d t removed. sym (ap (λ (q : Result ⊤ × Slot). q.1) removed);
  removedir-none = λ p n a b d missing. missing;
}

-- The digest that keeps all bytes.
abbrev all_bytes : Digest
all_bytes = record { State = List ℕ; start = []; update = λ d c. d ++ c; hexdigest = λ d. "aa" }

all_bytes-IsDigest : IsDigest all_bytes
all_bytes-IsDigest = record {
  update-nil = λ d. append-nil d;
  update-append = λ d a b. append_assoc d a b;
}

save-checksum_example :
    let sum = some (compute_checksum all_bytes "md5" stream) in
    (save one_file all_bytes "/dir/data" true stream (limit_of 5) (some (pos 5)) none
      ≡ (ok ("/dir/data", 5, sum), some (bytes stream)))
    × (some (bytes stream) ≡ some (bytes stream))
    × (checksum one_file all_bytes "/dir/data" true (some (bytes stream))
        ≡ (ok sum, some (bytes stream)))
save-checksum_example =
    save-checksum one_file one_file-IsFileSystem all_bytes all_bytes-IsDigest "/dir/data" true
      stream (limit_of 5) (some (pos 5)) none (some []) (some (bytes stream)) (5, refl, omega arith)
      (omega arith) refl refl

emptied : (d : Slot) → (delete one_file all_bytes "/dir/data" true d).0 ≡ ok tt
unfolding delete
emptied none = refl
emptied (some b) = refl

save_err_example :
    (e : Error) × (t : Slot) × (save one_file all_bytes "/dir/data" true stream
        (limit_of 4)
        none
        none
      ≡ (err e, t))
    × (t ≡ none)
save_err_example =
    save_err one_file one_file-IsFileSystem all_bytes all_bytes-IsDigest "/dir/data" true stream
      (limit_of 4) none none (some []) (λ w. ground (arith, w.0.1, w.0.2)) refl emptied

saved : (save one_file all_bytes "/dir/data" true stream none (some (pos 6)) none).1 ≡ none
unfolding save delete
saved = refl
