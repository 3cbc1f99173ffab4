-- ===== src/Serializer/Tests.antt =====
-- A task that is ready in the third round, and the data of the sample versions.
use invenio_files_rest.Prelude.{
  ℕ, zero, suc, ◌+◌, ◌≡◌, refl, ◌<◌, ◌⊎◌, Bool, true, Option, none, some, [], ◌∷◌, ◌++◌,
}
use invenio_files_rest.Samples.{version, marker}
use invenio_files_rest.Serializer.{object_links}
use invenio_files_rest.Errors.{zero_division_error, assertion_error, key_error}
use invenio_files_rest.Prelude.{false, String}
use invenio_files_rest.Session.{ok, err}
use invenio_files_rest.Serializer.Response.{
  Context, bucket, other, serializer_mapping, json_serializer, stream, SchemaClass, FormatArgs,
}
use invenio_files_rest.Serializer.Waiting.{
  whitespace, content, Output, job_timed_out, finished, wait_for_taskresult, spaces, NotReady,
  wait_for_taskresult_lem,
}

abbrev ready_third : ℕ → Option Bool
ready_third zero = none
ready_third (suc zero) = none
ready_third (suc (suc n)) = some true

wait_for_taskresult_example :
    (k : ℕ) × (last : Output) × (wait_for_taskresult 300 0 ready_third ≡ spaces k ++ last ∷ [])
    × NotReady k 0 ready_third
    × (((k ≡ 300) × (last ≡ job_timed_out))
        ⊎ ((k < 300) × (done : Bool) × (ready_third (0 + k) ≡ some done) × (last ≡ finished done)))
wait_for_taskresult_example = wait_for_taskresult_lem 300 0 ready_third

-- A version that is the visible one of its object is linked without its identifier, a delete marker
-- with it.
visible :
    object_links (λ b. "b") (λ b k ps. elim ps [ [] ↦ "k" | _ ↦ "k?v" ]) version
    ≡ ("self", record { url = "k"; suffix = "" })
      ∷ ("version", record { url = "k?v"; suffix = "" })
      ∷ ("uploads", record { url = "k"; suffix = "?uploads" })
      ∷ []
unfolding object_links
visible = refl

hidden :
    object_links (λ b. "b") (λ b k ps. elim ps [ [] ↦ "k" | _ ↦ "k?v" ]) marker
    ≡ ("self", record { url = "k?v"; suffix = "" })
      ∷ ("version", record { url = "k?v"; suffix = "" })
      ∷ []
unfolding object_links
hidden = refl

abbrev of_bucket : Context
of_bucket = record { item_class = some bucket; many = false; view_name = none }

abbrev indentation : SchemaClass → Context → Bool → FormatArgs → String → String
indentation schema context many arguments a = elim arguments.indent [ none ↦ a | some n ↦ "  " ]

-- The data are sent after two whitespaces.
sent_when_ready :
    json_serializer indentation none 600 2
      (some "{}")
      200
      none
      of_bucket
      none
      (some ready_third)
      serializer_mapping
      none
    ≡ ok (record {
      body = stream "{}" (whitespace ∷ whitespace ∷ content ∷ []);
      status_code = 200;
      headers = [];
      etag = none;
    })
unfolding json_serializer serializer_mapping
sent_when_ready = refl

-- An interval that is longer than the time to wait is refused, one of 0 an error.
no_round :
    json_serializer indentation none 1 2
      (some "{}")
      200
      none
      of_bucket
      none
      (some ready_third)
      serializer_mapping
      none
    ≡ err assertion_error
unfolding json_serializer serializer_mapping
no_round = refl

no_interval :
    json_serializer indentation
      (some "1")
      600
      0
      (some "{}")
      200
      none
      of_bucket
      none
      none
      serializer_mapping
      none
    ≡ err zero_division_error
unfolding json_serializer serializer_mapping
no_interval = refl

unknown_class :
    json_serializer indentation none 600 2 none 204 none
      (record of_bucket { item_class = some other })
      none
      none
      serializer_mapping
      none
    ≡ err key_error
unfolding json_serializer serializer_mapping
unknown_class = refl
