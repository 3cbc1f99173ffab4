-- ===== src/Helpers/Tests.antt =====
-- Runs of the helpers on small inputs.
use invenio_files_rest.Prelude.{
  ℕ, ◌+◌, String, true, false, none, some, List, [], ◌∷◌, ◌++◌, ◌≡◌, refl, ◌⊎◌, arith, str_eq,
  if◌then◌else◌,
}
use invenio_files_rest.Prelude.Tables.{length}
use invenio_files_rest.Session.{ok, ◌>>=◌}
use invenio_files_rest.Limiters.{file_size_limiters, less_than}
use invenio_files_rest.ObjectVersion.Creating.{demote_latest, add_new, attach_file, set_contents}
use invenio_files_rest.Bucket.{by_id}
use invenio_files_rest.Samples.{session, backend}
use invenio_files_rest.Helpers.Mimetypes.{
  Library, Sending, HeaderValue, options, contains, stream_response, stream_response_lem,
  mimetype_whitelist, octet_stream, security_headers, filenames,
}
use invenio_files_rest.Helpers.Paths.{make_path, uri_parts, uri_parts_lem, AreParts, concat}
use invenio_files_rest.Helpers.Checksums.{Digest, progress}
use invenio_files_rest.Helpers.Populating.{Disk, populate_from_path}

abbrev library : Library
library = record {
  guess_type = λ name. if str_eq name "a.html" then some "text/html" else none;
  lower = λ name. name;
  is_ascii = λ name. true;
  to_ascii = λ name. name;
  quote = λ name. name;
  send_file_max_age = λ name. some 60;
  time = 1000;
  make_conditional = λ r. r;
}

abbrev page : Sending
page = record {
  filename = "a.html";
  size = 12;
  mtime = some 5;
  mimetype = none;
  restricted = false;
  as_attachment = false;
  etag = none;
  content_md5 = none;
  chunk_size = none;
  conditional = true;
  trusted = false;
}

page_is_plain : (stream_response library page).mimetype ≡ "text/plain"
unfolding stream_response contains
page_is_plain = refl

stream_response_example :
    (before : List (String × HeaderValue)) × (value : HeaderValue) × ((stream_response library
        page).headers
      ≡ before ++ security_headers library ++ ("Content-Disposition", value) ∷ [])
    × ((contains mimetype_whitelist (stream_response library page).mimetype ≡ true)
        ⊎ (((stream_response library page).mimetype ≡ octet_stream)
            × (value ≡ options "attachment" (filenames library "a.html"))))
stream_response_example = stream_response_lem library page refl

abbrev digits : List ℕ
digits = 1 ∷ 2 ∷ 3 ∷ 4 ∷ 5 ∷ []

uri_parts_example : AreParts 2 2 (uri_parts 2 2 digits) × (concat (uri_parts 2 2 digits) ≡ digits)
uri_parts_example = uri_parts_lem 2 2 digits (omega arith)

path_of_digits :
    make_path (λ base parts. base ++ concat parts) [] digits (9 ∷ []) 2 2
    ≡ some (1 ∷ 2 ∷ 3 ∷ 4 ∷ 5 ∷ 9 ∷ [])
unfolding make_path
path_of_digits = refl

abbrev digest : Digest
digest = record {
  State = ℕ;
  start = 0;
  update = λ d chunk. d + length chunk;
  hexdigest = λ d. "aa";
}

-- One directory with two files.
abbrev disk : Disk
disk = record {
  open_file = λ path. ok ((1 ∷ 2 ∷ []) ∷ []);
  size_of = λ path. if str_eq path "old" then 30 else 2;
  is_file = λ path. false;
  basename = λ path. path;
  join = λ directory name. name;
  walk = λ source. ("dir", "old" ∷ "new" ∷ []) ∷ [];
  starts_with = λ path source. true;
  parts_after = λ source path. "" ∷ path ∷ [];
}

-- The file that is there already is referred to, the other one is saved.
populated :
    (populate_from_path backend digest disk (by_id 7) true "p-" "dir" session).0
    ≡ ok (1000 ∷ 1001 ∷ [])
unfolding populate_from_path ◌>>=◌ demote_latest add_new attach_file set_contents file_size_limiters
    less_than
populated = refl

counted : progress 0 ((1 ∷ 2 ∷ []) ∷ (3 ∷ []) ∷ []) ≡ 2 ∷ 3 ∷ 3 ∷ []
unfolding progress
counted = refl
