-- ===== src/Serializer/Response.antt =====
-- `json_serializer` of serializer.py: which schema dumps the data, and the response that carries them.
-- What a schema and `json.dumps` make of the data is a parameter.
use invenio_files_rest.Prelude.{
  ℕ, String, Bool, false, Option, none, some, List, [], ◌==◌, str_eq, not, if◌then◌else◌,
}
use invenio_files_rest.Errors.{assertion_error, zero_division_error, key_error}
use invenio_files_rest.Session.{Result, ok, err, and_then}
use invenio_files_rest.Serializer.{max_rounds}
use invenio_files_rest.Serializer.Waiting.{Output, wait_for_taskresult}

-- The classes of the models, and another one.
pub data ModelClass : Type 0 where
  bucket : ModelClass
  object_version : ModelClass
  multipart_object : ModelClass
  part : ModelClass
  other : ModelClass

pub data SchemaClass : Type 0 where
  base_schema : SchemaClass
  bucket_schema : SchemaClass
  object_version_schema : SchemaClass
  multipart_object_schema : SchemaClass
  part_schema : SchemaClass

unfoldable pub serializer_mapping : ModelClass → Option SchemaClass
serializer_mapping bucket = some bucket_schema
serializer_mapping object_version = some object_version_schema
serializer_mapping multipart_object = some multipart_object_schema
serializer_mapping part = some part_schema
serializer_mapping other = none

-- The keys of the context that the code reads and writes; `many` is false where it is missing.
pub record Context : Type 0 where
  pub item_class : Option ModelClass
  pub many : Bool
  pub view_name : Option String

-- `schema_from_context`
unfoldable pub schema_from_context :
    Context → (ModelClass → Option SchemaClass) → Result (SchemaClass × Bool)
schema_from_context context mapping = elim context.item_class [
  | none ↦ ok (base_schema, context.many)
  | some c ↦ elim (mapping c) [ none ↦ err key_error | some schema ↦ ok (schema, context.many) ]
]

-- The indentation and the separators of `_format_args`.
pub record FormatArgs : Type 0 where
  pub indent : Option ℕ
  pub separators : String × String

-- A text that is missing or empty is false.
abbrev is_given : Option String → Bool
is_given none = false
is_given (some text) = not (str_eq text "")

-- `_format_args`, from the argument `prettyprint` of the request, if there is one.
unfoldable pub format_args : Option String → FormatArgs
format_args prettyprint =
    if is_given prettyprint
    then record { indent = some 2; separators = (", ", ": ") }
    else record { indent = none; separators = (",", ":") }

pub data Body : Type 0 where
  empty : Body
  text : String → Body
  -- The data that are sent when the task is ready, and what is sent until then.
  stream : String → List Output → Body

pub record JsonResponse : Type 0 where
  pub body : Body
  pub status_code : ℕ
  pub headers : List (String × String)
  pub etag : Option String

-- The rounds in which a task is ready, with its success.
abbrev pub Poll : Type 0
Poll = ℕ → Option Bool

-- The body for data that were dumped.
unfoldable pub dumped_body : ℕ → ℕ → Option Poll → String → Result Body
unfolding max_rounds wait_for_taskresult
dumped_body seconds interval task_result dumped = elim (max_rounds seconds interval) [
  | none ↦ err zero_division_error
  | some rounds ↦ elim task_result [
    | none ↦ ok (text dumped)
    | some poll ↦
        if rounds == 0
        then err assertion_error
        else ok (stream dumped (wait_for_taskresult rounds 0 poll))
  ]
]

abbrev with_view_name : Option String → Context → Context
with_view_name view_name context =
    if is_given view_name then record context { view_name = view_name } else context

abbrev headers_or_none : Option (List (String × String)) → List (String × String)
headers_or_none none = []
headers_or_none (some headers) = headers

module _ {A : Type 0} (dump : SchemaClass → Context → Bool → FormatArgs → A → String)
    (prettyprint : Option String) (seconds interval : ℕ) where
  abbrev body_of : Option A → SchemaClass → Context → Bool → Option Poll → Result Body
  body_of none schema context many task_result = ok empty
  body_of (some a) schema context many task_result =
      dumped_body seconds interval task_result
        (dump schema context many (format_args prettyprint) a)

  -- `json_serializer`
  unfoldable pub json_serializer :
      Option A
      → ℕ
      → Option (List (String × String))
      → Context
      → Option String
      → Option Poll
      → (ModelClass → Option SchemaClass)
      → Option String
      → Result JsonResponse
  unfolding schema_from_context dumped_body format_args
  json_serializer data_ code headers context etag task_result mapping view_name =
      let named = with_view_name view_name context in
      and_then (schema_from_context named mapping) λ (schema, many).
        and_then (body_of data_ schema named many task_result) λ body. ok (record {
          body = body;
          status_code = code;
          headers = headers_or_none headers;
          etag = if is_given etag then etag else none;
        })
