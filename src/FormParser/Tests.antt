-- ===== src/FormParser/Tests.antt =====
-- Forms that are parsed, refused and left alone.
use invenio_files_rest.Prelude.{ℕ, ◌≡◌, refl, true, false, none, some}
use invenio_files_rest.Errors.{value_error, aborted}
use invenio_files_rest.Session.{Result, ok, err}
use invenio_files_rest.FormParser.{Parser, multipart, urlencoded, parse}

abbrev run : Parser → Result ℕ
run multipart = ok 1
run urlencoded = err (value_error "bad")

parsed : parse run 0 (some 10) false "multipart/form-data" (some 10) ≡ ok 1
unfolding parse
parsed = refl

refused : parse run 0 (some 10) true "multipart/form-data" (some 11) ≡ err (aborted 413)
unfolding parse
refused = refl

silent_run : parse run 0 none true "application/x-url-encoded" none ≡ ok 0
unfolding parse
silent_run = refl

raised : parse run 0 none false "application/x-url-encoded" none ≡ err (value_error "bad")
unfolding parse
raised = refl

left_alone : parse run 0 (some 10) false "text/plain" (some 11) ≡ ok 0
unfolding parse
left_alone = refl
