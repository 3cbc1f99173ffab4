-- ===== src/Helpers/Mimetypes.antt =====
-- `sanitize_mimetype` and `send_stream` of helpers.py: the response that carries a file. The guess of
-- a type from a name, the functions on text and the clock are parameters.
use invenio_files_rest.Prelude.Texts.{append}
use invenio_files_rest.Storage.Writing.{chunk_size_or_default}
use invenio_files_rest.Prelude.{
  ℕ, ◌+◌, String, Bool, true, false, Option, none, some, List, [], ◌∷◌, ◌++◌, ◌≡◌, refl, ◌⊎◌, inl,
  inr, ◌||◌, ◌&&◌, not, str_eq, if◌then◌else◌, Bool-cases,
}

unfoldable pub contains : List String → String → Bool
contains [] x = false
contains (y ∷ ys) x = if str_eq y x then true else contains ys x

abbrev pub mimetype_textfiles : List String
mimetype_textfiles = "readme" ∷ []

abbrev pub mimetype_whitelist : List String
mimetype_whitelist =
    "audio/mpeg" ∷ "audio/ogg" ∷ "audio/wav" ∷ "audio/webm" ∷ "image/gif" ∷ "image/jpeg"
    ∷ "image/png" ∷ "image/tiff" ∷ "text/plain" ∷ []

abbrev pub mimetype_plaintext : List String
mimetype_plaintext =
    "application/javascript" ∷ "application/json" ∷ "application/xhtml+xml" ∷ "application/xml"
    ∷ "text/css" ∷ "text/csv" ∷ "text/html" ∷ "image/svg+xml" ∷ []

abbrev pub octet_stream : String
octet_stream = "application/octet-stream"

-- What a header is set to; `options` are a value with its parameters.
pub data HeaderValue : Type 0 where
  number : ℕ → HeaderValue
  text : String → HeaderValue
  options : String → List (String × String) → HeaderValue

-- The response before it is made conditional; `etag` and the times are set where they are known.
pub record Response : Type 0 where
  pub mimetype : String
  pub headers : List (String × HeaderValue)
  pub buffer_size : ℕ
  pub etag : Option String
  pub last_modified : Option ℕ
  pub cache_public : Bool
  pub max_age : Option ℕ
  pub expires : Option ℕ

-- What the code calls: `guess_type(name)[0]`, `str.lower`, whether a name can be encoded as ASCII, the
-- name that NFKD leaves in ASCII, `quote`, `get_send_file_max_age`, `time()` and `make_conditional`.
pub record Library : Type 0 where
  pub guess_type : String → Option String
  pub lower : String → String
  pub is_ascii : String → Bool
  pub to_ascii : String → String
  pub quote : String → String
  pub send_file_max_age : String → Option ℕ
  pub time : ℕ
  pub make_conditional : Response → Response

-- The arguments of `send_stream`, but for the stream itself.
pub record Sending : Type 0 where
  pub filename : String
  pub size : ℕ
  pub mtime : Option ℕ
  pub mimetype : Option String
  pub restricted : Bool
  pub as_attachment : Bool
  pub etag : Option String
  pub content_md5 : Option String
  pub chunk_size : Option ℕ
  pub conditional : Bool
  pub trusted : Bool

-- A text that is neither `None` nor empty.
abbrev pub truthy : Option String → Bool
truthy none = false
truthy (some t) = not (str_eq t "")

module _ (library : Library) where
  abbrev is_textfile : Option String → Bool
  is_textfile none = false
  is_textfile (some name) = not (str_eq name "") && contains mimetype_textfiles (library.lower name)

  -- `sanitize_mimetype`
  unfoldable pub sanitize_mimetype : String → Option String → String
  sanitize_mimetype mimetype filename =
      if contains mimetype_whitelist mimetype
      then mimetype
      else if contains mimetype_plaintext mimetype || is_textfile filename
      then "text/plain"
      else octet_stream

  -- The type that is given, or guessed from a name that is not empty.
  abbrev known_mimetype : Option String → String → Option String
  known_mimetype (some m) filename = some m
  known_mimetype none filename = if str_eq filename "" then none else library.guess_type filename

  abbrev mimetype_or_default : Option String → String
  mimetype_or_default none = octet_stream
  mimetype_or_default (some m) = m

  -- The type of the response.
  unfoldable pub content_type : Sending → String
  unfolding sanitize_mimetype
  content_type a =
      let mimetype = mimetype_or_default (known_mimetype a.mimetype a.filename) in
      if a.trusted then mimetype else sanitize_mimetype mimetype (some a.filename)

  abbrev length_headers : Sending → List (String × HeaderValue)
  length_headers a = ("Content-Length", number a.size) ∷ (elim a.content_md5 [
    | none ↦ []
    | some t ↦ if str_eq t "" then [] else ("Content-MD5", text t) ∷ []
  ])

  abbrev pub security_headers : List (String × HeaderValue)
  security_headers =
      ("Content-Security-Policy", text "default-src 'none';")
      ∷ ("X-Content-Type-Options", text "nosniff")
      ∷ ("X-Download-Options", text "noopen")
      ∷ ("X-Permitted-Cross-Domain-Policies", text "none")
      ∷ ("X-Frame-Options", text "deny")
      ∷ ("X-XSS-Protection", text "1; mode=block")
      ∷ []

  abbrev pub filenames : String → List (String × String)
  filenames name =
      if library.is_ascii name
      then ("filename", name) ∷ []
      else ("filename", library.to_ascii name)
        ∷ ("filename*", append "UTF-8''" (library.quote name))
        ∷ []

  abbrev pub disposition : Bool → String → HeaderValue
  disposition true name = options "attachment" (filenames name)
  disposition false name = text "inline"

  -- The headers, in the order in which they are set.
  unfoldable pub stream_headers : Sending → List (String × HeaderValue)
  unfolding content_type
  stream_headers a =
      length_headers a
      ++ (if a.trusted then [] else security_headers)
      ++ (
        "Content-Disposition",
        disposition (a.as_attachment || str_eq (content_type a) octet_stream) a.filename,
      )
        ∷ []

  abbrev max_age : Sending → Option ℕ
  max_age a = if a.restricted then none else library.send_file_max_age a.filename

  -- The response that is made conditional.
  unfoldable pub stream_response : Sending → Response
  unfolding content_type stream_headers chunk_size_or_default
  stream_response a = record {
    mimetype = content_type a;
    headers = stream_headers a;
    buffer_size = chunk_size_or_default a.chunk_size;
    etag = if truthy a.etag then a.etag else none;
    last_modified = a.mtime;
    cache_public = not a.restricted;
    max_age = max_age a;
    expires = elim (max_age a) [ none ↦ none | some age ↦ some (library.time + age) ];
  }

  -- `send_stream`
  unfoldable pub send_stream : Sending → Response
  unfolding stream_response
  send_stream a =
      if a.conditional then library.make_conditional (stream_response a) else stream_response a

  contains-plain : contains mimetype_whitelist "text/plain" ≡ true
  unfolding contains
  contains-plain = refl

  or_true : (b : Bool) → (b || true) ≡ true
  or_true true = refl
  or_true false = refl

  sanitize_mimetype-cases :
      (m : String) (name : Option String)
      → (contains mimetype_whitelist (sanitize_mimetype m name) ≡ true)
        ⊎ (sanitize_mimetype m name ≡ octet_stream)
  unfolding sanitize_mimetype
  sanitize_mimetype-cases m name = elim (Bool-cases (contains mimetype_whitelist m)) [
    | inl listed ↦ inl (rw (listed, listed) refl)
    | inr unlisted ↦ elim (Bool-cases (contains mimetype_plaintext m || is_textfile name)) [
      | inl plain ↦ inl (rw (unlisted, plain) contains-plain)
      | inr other ↦ inr (rw (unlisted, other) refl)
    ]
  ]

  content_type-cases :
      (a : Sending)
      → a.trusted ≡ false
      → (contains mimetype_whitelist (content_type a) ≡ true) ⊎ (content_type a ≡ octet_stream)
  unfolding content_type
  content_type-cases a untrusted = rw untrusted (
      sanitize_mimetype-cases (mimetype_or_default (known_mimetype a.mimetype a.filename))
        (some a.filename))

  -- For a file that is not trusted the response, before it is made conditional, carries the six
  -- security headers and after them the disposition, and its type is on the whitelist, or it is
  -- application/octet-stream and the disposition is an attachment.
  pub stream_response_lem :
      (a : Sending)
      → a.trusted ≡ false
      → (before : List (String × HeaderValue)) × (value : HeaderValue) × ((stream_response
            a).headers
          ≡ before ++ security_headers ++ ("Content-Disposition", value) ∷ [])
        × ((contains mimetype_whitelist (stream_response a).mimetype ≡ true)
            ⊎ (((stream_response a).mimetype ≡ octet_stream)
                × (value ≡ options "attachment" (filenames a.filename))))
  unfolding stream_response stream_headers
  stream_response_lem a untrusted = elim (content_type-cases a untrusted) [
    | inl listed ↦ (
      length_headers a,
      disposition (a.as_attachment || str_eq (content_type a) octet_stream) a.filename,
      rw untrusted refl,
      inl listed,
    )
    | inr octets ↦ (
      length_headers a,
      options "attachment" (filenames a.filename),
      rw (octets, untrusted, or_true a.as_attachment) refl,
      inr (octets, refl),
    )
  ]
