-- ===== src/FormParser.antt =====
-- formparser.py: which parser a form is given to. The parsers themselves, `_parse_multipart` and
-- `_parse_urlencoded`, are Werkzeug's and a parameter.
mod Tests
use invenio_files_rest.Prelude.{
  ℕ, String, Bool, true, false, Option, none, some, ltb, str_eq, if◌then◌else◌,
}
use invenio_files_rest.Errors.{Error, value_error, aborted}
use invenio_files_rest.Session.{Result, ok, err}

pub data Parser : Type 0 where
  multipart : Parser
  urlencoded : Parser

-- `get_parse_func`
unfoldable pub get_parse_func : String → Option Parser
get_parse_func mimetype =
    if str_eq mimetype "multipart/form-data"
    then some multipart
    else if str_eq mimetype "application/x-www-form-urlencoded"
    then some urlencoded
    else if str_eq mimetype "application/x-url-encoded"
    then some urlencoded
    else none

-- The content is longer than what is allowed; a length that is not known is not checked.
abbrev pub too_large : Option ℕ → Option ℕ → Bool
too_large none length = false
too_large (some n) none = false
too_large (some n) (some length) = ltb n length

module _ {Form : Type 0} (run : Parser → Result Form) (empty : Form) where
  -- `except ValueError: if not self.silent: raise`, after which nothing was parsed.
  abbrev pub forgiven : Bool → Result Form → Result Form
  forgiven silent (ok form) = ok form
  forgiven true (err (value_error m)) = ok empty
  forgiven silent (err e) = err e

  -- `parse`
  unfoldable pub parse : Option ℕ → Bool → String → Option ℕ → Result Form
  unfolding get_parse_func
  parse max_content_length silent mimetype content_length = elim (get_parse_func mimetype) [
    | none ↦ ok empty
    | some p ↦
        if too_large max_content_length content_length
        then err (aborted 413)
        else forgiven silent (run p)
  ]
