-- ===== src/Rest/Factories.antt =====
-- The tags of a request and the factories that read uploads from it (views.py), and how the
-- extension tries one factory after the other (ext.py).
use Prim.Native.String.{count as text_count}
use invenio_files_rest.Prelude.Int.{ℤ, pos, negsuc}
use text.Mathlib.Text.{starts_with}
use invenio_files_rest.Prelude.{
  String, Bool, true, false, Option, none, some, List, [], ◌∷◌, ◌++◌, ◌&&◌, ltb, str_eq, not, ◌==◌,
  map, if◌then◌else◌,
}
use invenio_files_rest.Errors.{
  Error, duplicate_tag, invalid_tag, file_size_error, multipart_no_part, aborted,
}
use invenio_files_rest.Schema.{Config}
use invenio_files_rest.Session.{Result, ok, err, and_then, ⊤}
use invenio_files_rest.Rest.Request.{Request, Upload, PartUpload, App}

abbrev pub Tags : Type 0
Tags = List (String × String)

-- `validate_tag`
unfoldable pub validate_tag : String → String → Bool
validate_tag key value =
    ltb 0 (text_count key)
    && ltb (text_count key) 256
    && ltb 0 (text_count value)
    && ltb (text_count value) 256

-- `key in tags`
abbrev pub has_key : String → Tags → Bool
has_key key [] = false
has_key key ((k, v) ∷ ts) = if str_eq k key then true else has_key key ts

-- The loop of `parse_header_tags`, over the pairs of the header and the dictionary so far.
unfoldable pub read_tags : Tags → Tags → Result Tags
unfolding validate_tag
read_tags [] tags = ok tags
read_tags ((key, value) ∷ rest) tags =
    let later = read_tags rest (tags ++ (key, value) ∷ []) in
    if has_key key tags
    then err duplicate_tag
    else if not (validate_tag key value)
    then err invalid_tag
    else later

-- `tags or None`
abbrev pub or_none : Tags → Option Tags
or_none [] = none
or_none (t ∷ ts) = some (t ∷ ts)

-- `parse_header_tags`
unfoldable pub parse_header_tags : Request → Result (Option Tags)
unfolding read_tags
parse_header_tags rq = and_then (read_tags rq.header_tags []) λ ts. ok (or_none ts)

-- `minsize_validator`; webargs calls it for the length that the request has, before it reports what
-- is missing.
unfoldable pub minsize_validator : Config → Option ℤ → Result ⊤
minsize_validator c none = ok tt
minsize_validator c (some (negsuc n)) = err (file_size_error "")
minsize_validator c (some (pos n)) =
    if ltb n c.min_file_size then err (file_size_error "") else ok tt

-- A required field.
abbrev pub required : {A : Type 0} → Option A → Result A
required none = err (aborted 422)
required (some a) = ok a

abbrev pub is_form : Option String → Bool
is_form none = false
is_form (some t) = starts_with t "multipart/form-data"

-- `default_partfactory`
unfoldable pub default_partfactory : Request → Config → Result PartUpload
unfolding minsize_validator
default_partfactory rq c = and_then (minsize_validator c rq.content_length) λ _.
    and_then (required rq.part_number) λ n. and_then (required rq.content_length) λ size.
      ok (record {
        content_length = some size;
        part_number = n;
        stream = rq.stream;
        content_type = rq.content_type;
        content_md5 = rq.content_md5;
      })

-- `ngfileupload_partfactory`
unfoldable pub ngfileupload_partfactory : Request → Config → Result PartUpload
unfolding minsize_validator
ngfileupload_partfactory rq c = and_then (minsize_validator c rq.current_chunk_size) λ _.
    and_then (required rq.chunk_number) λ n. and_then (required rq.current_chunk_size) λ size.
      and_then (required rq.file) λ file. ok (record {
        content_length = some size;
        part_number = n;
        stream = file.stream;
        content_type = file.content_type;
        content_md5 = none;
      })

-- `stream_uploadfactory`
unfoldable pub stream_uploadfactory : Request → Config → Result Upload
unfolding minsize_validator parse_header_tags
stream_uploadfactory rq c = and_then (minsize_validator c rq.content_length) λ _.
    and_then (required rq.content_length) λ size.
      if is_form rq.content_type
      then err (aborted 422)
      else and_then (parse_header_tags rq) λ tags. ok (record {
        stream = rq.stream;
        content_length = some size;
        content_md5 = rq.content_md5;
        tags = tags;
      })

-- `ngfileupload_uploadfactory`
unfoldable pub ngfileupload_uploadfactory : Request → Config → Result Upload
unfolding parse_header_tags
ngfileupload_uploadfactory rq c = and_then (required rq.total_size) λ size.
    and_then (required rq.content_type) λ type. and_then (required rq.file) λ file.
      if not (is_form (some type))
      then err (aborted 422)
      else and_then (parse_header_tags rq) λ tags. ok (record {
        stream = file.stream;
        content_length = some size;
        content_md5 = none;
        tags = tags;
      })

-- `except UnprocessableEntity` and `except (MultipartNoPart, UnprocessableEntity)`
abbrev pub is_unprocessable : Error → Bool
is_unprocessable (aborted n) = n == 422
is_unprocessable e = false

abbrev pub is_no_part : Error → Bool
is_no_part multipart_no_part = true
is_no_part e = is_unprocessable e

-- `for factory in factories: try: return factory() except ...: pass`, and what follows the loop.
unfoldable pub first_of : {A : Type 0} → (Error → Bool) → Error → List (Result A) → Result A
first_of skips last [] = err last
first_of skips last (r ∷ rs) =
    let later = first_of skips last rs in
    elim r [ ok a ↦ ok a | err e ↦ if skips e then later else err e ]

abbrev pub tried :
    {A : Type 0} → List (Request → Config → Result A) → Request → Config → List (Result A)
tried fs rq c = map (λ f. f rq c) fs

-- `_FilesRESTState.multipart_partfactory`
unfoldable pub multipart_partfactory : App → Request → Config → Result PartUpload
unfolding first_of
multipart_partfactory app rq c =
    first_of is_no_part multipart_no_part (tried app.part_factories rq c)

-- `_FilesRESTState.upload_factory`
unfoldable pub upload_factory : App → Request → Config → Result Upload
unfolding first_of
upload_factory app rq c = first_of is_unprocessable (aborted 400) (tried app.upload_factories rq c)
