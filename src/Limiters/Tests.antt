-- ===== src/Limiters/Tests.antt =====
-- The least limit of a list of limiters, one of which is not set.
use invenio_files_rest.Prelude.{ℕ, ◌≡◌, refl, ◌⊎◌, none, some, List, [], ◌∷◌}
use invenio_files_rest.Prelude.Int.{pos}
use invenio_files_rest.Schema.{FileSizeLimit}
use invenio_files_rest.Session.{ok, err}
use invenio_files_rest.Limiters.{size_limit, less_than, greater_than, int}
use invenio_files_rest.Limiters.Bounds.{IsBelowAll, AllUnset, size_limit_least}
use invenio_files_rest.Prelude.Members.{IsIn}
use invenio_files_rest.Errors.{type_error}

abbrev limiters : List FileSizeLimit
limiters =
    record { limit = some 70; reason = "quota" }
    ∷ record { limit = none; reason = "unset" }
    ∷ record { limit = some 50; reason = "maximum" }
    ∷ []

size_limit_least_example :
    ((size_limit limiters ≡ ok none) × AllUnset limiters)
    ⊎ ((m : FileSizeLimit) × (n : ℕ) × (size_limit limiters ≡ ok (some m))
        × (m.limit ≡ some n)
        × IsBelowAll n limiters
        × IsIn m limiters)
size_limit_least_example = size_limit_least limiters

least : size_limit limiters ≡ ok (some (record { limit = some 50; reason = "maximum" }))
unfolding size_limit less_than
least = refl

unset : greater_than (record { limit = none; reason = "unset" }) (int (pos 3)) ≡ err type_error
unfolding greater_than
unset = refl
