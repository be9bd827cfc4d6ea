-- ===== src/Fetcher.antt =====
-- adapter/outbound-attachment-fetcher/src/fetcher.rs: remote attachments, fetched from hosts of a list and
-- up to a size. The environment, parsing, the lower case of Unicode and the HTTP client are parameters.
pub mod Fetched
use catapulte.Common.{
  ℕ, ◌+◌, ◌*◌, ◌%◌, ◌^◌, String, List, [], ◌∷◌, Bool, true, false, not, ◌&&◌, ◌||◌, Option, none,
  some, Result, ok, err, filter, length, leb, ltb, str_eq, take, ◌==◌, if◌then◌else◌,
}
use catapulte.Entity.{AnyError, Bytes}
use catapulte.Http.Reader.{Source}
use catapulte.Port.Types.{
  AttachmentFetchError, AttachmentReader, domain_not_allowed, fetch, scheme_not_allowed, too_large,
}
use catapulte.Routing.Domain.{trim_dots}
use catapulte.Texts.{items, split_commas}

pub record HttpAttachmentFetcherConfig : Type 0 where
  pub allowed_domains : List String
  pub allow_http : Bool
  pub max_bytes : ℕ
  pub fetch_timeout_ms : ℕ

-- A `HashSet` is a list of its elements; only whether it has an element is asked for.
unfoldable pub contains : String → List String → Bool
contains x [] = false
contains x (y ∷ ys) = str_eq y x || contains x ys

-- `std::env::var`, `none` for a variable that is missing or not readable.
abbrev pub Environment : Type 0
Environment = String → Option String

abbrev pub unwrap_or_default : Option String → String
unwrap_or_default (some v) = v
unwrap_or_default none = ""

unfoldable pub parse_allow_http : String → Result Bool AnyError
parse_allow_http value =
    if str_eq value "true"
    then ok true
    else if str_eq value "false" || str_eq value ""
    then ok false
    else err "invalid ALLOW_HTTP value"

unfoldable pub parse_or :
    (String → Result ℕ AnyError) → ℕ → AnyError → Option String → Result ℕ AnyError
parse_or parse default context none = ok default
parse_or parse default context (some v) = elim (parse v) [ ok n ↦ ok n | err _ ↦ err context ]

module _ (parse : String → Result ℕ AnyError) (var : Environment) where
  -- `from_env`, whose variables are named without their prefix here.
  unfoldable pub from_env : Result HttpAttachmentFetcherConfig AnyError
  from_env = elim (parse_allow_http (unwrap_or_default (var "ALLOW_HTTP"))) [
    | err e ↦ err e
    | ok allow_http ↦
        elim (parse_or parse (25 * 1024 * 1024) "invalid MAX_BYTES" (var "MAX_BYTES")) [
          | err e ↦ err e
          | ok max_bytes ↦
              elim (parse_or parse 30000 "invalid FETCH_TIMEOUT_MS" (var "FETCH_TIMEOUT_MS")) [
                | err e ↦ err e
                | ok ms ↦ ok (record {
                  allowed_domains =
                      items (split_commas (unwrap_or_default (var "ALLOWED_DOMAINS")));
                  allow_http = allow_http;
                  max_bytes = max_bytes;
                  fetch_timeout_ms = ms;
                })
              ]
        ]
  ]

-- What the code reads of a `url::Url`.
pub record Target : Type 0 where
  pub scheme : String
  pub host : Option String
  pub text : String

-- What it reads of a response: the body is what is left of the stream.
pub record Response : Type 0 where
  pub status : ℕ
  pub content_length : Option ℕ
  pub body : Source

pub record HttpAttachmentFetcher : Type 0 where
  pub allowed_domains : List String
  pub allow_http : Bool
  pub max_bytes : ℕ

module _ (to_lowercase : String → String) where
  -- `to_lowercase().trim_end_matches('.')`
  unfoldable pub normalized : String → String
  normalized d = trim_dots (to_lowercase d)

  unfoldable pub normalize_all : List String → List String
  normalize_all [] = []
  normalize_all (d ∷ ds) = normalized d ∷ normalize_all ds

  -- `new`, without the client that it builds.
  unfoldable pub new : HttpAttachmentFetcherConfig → HttpAttachmentFetcher
  new config = record {
    allowed_domains = normalize_all config.allowed_domains;
    allow_http = config.allow_http;
    max_bytes = config.max_bytes;
  }

  abbrev pub is_allowed_scheme : HttpAttachmentFetcher → String → Bool
  is_allowed_scheme f scheme = str_eq scheme "https" || (str_eq scheme "http" && f.allow_http)

  -- `max_bytes + 1` on u64, which wraps around in a release build.
  abbrev pub one_more : ℕ → ℕ
  one_more n = (n + 1) % 2 ^ 64

  -- `take(max_bytes + 1).read_to_end(..)`: an error of the stream is met only within the limit.
  unfoldable pub read_up_to : ℕ → Source → Result Bytes AttachmentFetchError
  read_up_to limit s =
      if leb limit (length s.left)
      then ok (take limit s.left)
      else elim s.failure [ none ↦ ok s.left | some _ ↦ err (fetch "reading attachment body") ]

  -- The body of a response that is not announced as too large.
  unfoldable pub read_body :
      HttpAttachmentFetcher → Source → Result AttachmentReader AttachmentFetchError
  read_body f s = elim (read_up_to (one_more f.max_bytes) s) [
    | err e ↦ err e
    | ok buf ↦ if length buf == one_more f.max_bytes then err too_large else ok (ok buf)
  ]

  abbrev pub is_announced_too_large : HttpAttachmentFetcher → Option ℕ → Bool
  is_announced_too_large f none = false
  is_announced_too_large f (some n) = ltb f.max_bytes n

  -- What follows the response.
  unfoldable pub read_response :
      HttpAttachmentFetcher → Response → Result AttachmentReader AttachmentFetchError
  read_response f r =
      if leb 200 r.status && ltb r.status 300
      then (if is_announced_too_large f r.content_length then err too_large else read_body f r.body)
      else err (fetch "attachment fetch returned non-2xx status")

  module _ (send : Target → Result Response AnyError) where
    -- `fetch`; `send` is the client's, which follows no redirect.
    unfoldable pub fetch_attachment :
        HttpAttachmentFetcher → Target → Result AttachmentReader AttachmentFetchError
    fetch_attachment f url =
        if not (is_allowed_scheme f url.scheme)
        then err (scheme_not_allowed url.scheme)
        else if not (contains (normalized (unwrap_or_default url.host)) f.allowed_domains)
        then err (domain_not_allowed (unwrap_or_default url.host))
        else elim (send url) [
          | err _ ↦ err (fetch "fetching attachment")
          | ok response ↦ read_response f response
        ]
