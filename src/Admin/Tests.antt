-- ===== src/Admin/Tests.antt =====
-- Fixity checks of the sample files, and the names that the form accepts.
use invenio_files_rest.Prelude.{
  String, ℕ, ◌≡◌, ◌++◌, refl, false, List, [], ◌∷◌, str_eq, if◌then◌else◌,
}
use invenio_files_rest.Errors.{Error, value_error}
use invenio_files_rest.Session.{Result, ok, err}
use invenio_files_rest.Samples.{session, file}
use invenio_files_rest.Admin.{
  action_verify_checksum, action_verify_checksum_lem, sent_to_queue, with_sent, IsLost,
  require_slug,
}

abbrev read_number : String → Result ℕ
read_number text =
    if str_eq text "10" then ok 10 else if str_eq text "11" then ok 11 else err (value_error text)

-- The check of the first file is under way when the second is not found.
action_verify_checksum_example :
    (action_verify_checksum read_number (λ e. false) ("10" ∷ []) session
      ≡ (ok (sent_to_queue ∷ []), with_sent (10 ∷ []) session))
    × ((x : String) (after : List String) (e : Error)
        → IsLost read_number x e session.files
        → action_verify_checksum read_number (λ e. false) (("10" ∷ []) ++ x ∷ after) session
          ≡ (err e, with_sent (10 ∷ []) session))
action_verify_checksum_example =
    action_verify_checksum_lem read_number (λ e. false) ("10" ∷ []) (10 ∷ []) session
      (refl, (file, refl), tt)

capital_refused : require_slug "Main" ≡ err (value_error "Invalid location name.")
unfolding require_slug
capital_refused = refl
