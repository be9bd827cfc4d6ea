-- ===== src/Resolver.antt =====
-- adapter/outbound-resolver/src/resolver.rs: the source of a template, from the request, a directory that
-- is read at the start, or a host of a list, with credentials for some hosts. The environment, the file
-- system, the HTTP client and its parsers of header names and values are parameters. The messages of
-- errors leave out the names that they print.
pub mod Environment
pub mod Secrets
use catapulte.Common.{
  ℕ, String, List, [], ◌∷◌, ◌++◌, Bool, true, false, not, ◌&&◌, ◌||◌, Option, none, some, Result,
  ok, err, leb, ltb, str_eq, if◌then◌else◌,
}
use catapulte.Entity.{AnyError, Url}
use catapulte.Entity.Body
use catapulte.Entity.Body.{BodySource, MjmlSource, ResolvedBody}
use catapulte.Fetcher.{contains, unwrap_or_default}
use catapulte.Port.Types.{ResolveError, domain_not_allowed, fetch, not_found}

pub record ResolverAuthEntry : Type 0 where
  pub host : String
  pub bearer_token : Option String
  pub headers : List (String × String)

-- The names and values of headers, in the order in which they were added.
abbrev pub HeaderMap : Type 0
HeaderMap = List (String × String)

-- What the HTTP library says of a header's name, in lower case, and of its value.
pub record Headers : Type 0 where
  pub parse_name : String → Result String AnyError
  pub parse_value : String → Result String AnyError
  -- `format!("Bearer {token}")`
  pub bearer : String → String

pub record TemplateResolverAdapter : Type 0 where
  pub templates : List (String × String)
  pub allowed_domains : List String
  pub auth_headers : List (String × HeaderMap)

unfoldable pub lookup {ℓ} : {A : Type ℓ} → String → List (String × A) → Option A
lookup key [] = none
lookup key ((k, a) ∷ rest) = if str_eq k key then some a else lookup key rest

abbrev pub is_some {ℓ} : {A : Type ℓ} → Option A → Bool
is_some (some _) = true
is_some none = false

module _ (lib : Headers) where
  -- The loop over the further headers of an entry.
  unfoldable pub append_headers :
      Bool → List (String × String) → HeaderMap → Result HeaderMap AnyError
  append_headers has_token [] map = ok map
  append_headers has_token ((name, value) ∷ rest) map = elim (lib.parse_name name) [
    | err _ ↦ err "invalid header name"
    | ok header_name ↦
        if has_token && str_eq header_name "authorization"
        then err "conflicting Authorization header"
        else elim (lib.parse_value value) [
          | err _ ↦ err "invalid header value"
          | ok header_value ↦
              append_headers has_token rest (map ++ (header_name, header_value) ∷ [])
        ]
  ]

  -- The header of the bearer token.
  unfoldable pub token_headers : Option String → Result HeaderMap AnyError
  token_headers none = ok []
  token_headers (some token) = elim (lib.parse_value (lib.bearer token)) [
    | err _ ↦ err "invalid resolver bearer token"
    | ok value ↦ ok (("authorization", value) ∷ [])
  ]

  unfoldable pub headers_of : ResolverAuthEntry → Result HeaderMap AnyError
  headers_of entry = elim (token_headers entry.bearer_token) [
    | err e ↦ err e
    | ok map ↦ append_headers (is_some entry.bearer_token) entry.headers map
  ]

  -- The loop over the entries.
  unfoldable pub insert_entries :
      List ResolverAuthEntry
      → List (String × HeaderMap)
      → Result (List (String × HeaderMap)) AnyError
  insert_entries [] auth = ok auth
  insert_entries (entry ∷ rest) auth =
      if is_some (lookup entry.host auth)
      then err "duplicate host in resolver auth entries"
      else elim (headers_of entry) [
        | err e ↦ err e
        | ok map ↦ insert_entries rest ((entry.host, map) ∷ auth)
      ]

  -- `new`, without the client that it builds.
  unfoldable pub new :
      List (String × String)
      → List String
      → List ResolverAuthEntry
      → Result TemplateResolverAdapter AnyError
  new templates allowed_domains entries = elim (insert_entries entries []) [
    | err e ↦ err e
    | ok auth ↦
        ok
          (record { templates = templates; allowed_domains = allowed_domains; auth_headers = auth })
  ]

-- The headers that are configured for the host of a url.
unfoldable pub headers_of_host : List (String × HeaderMap) → Option String → HeaderMap
headers_of_host auth none = []
headers_of_host auth (some host) = elim (lookup host auth) [ some map ↦ map | none ↦ [] ]

-- A response: its status and the outcome of reading its text.
pub record Reply : Type 0 where
  pub status : ℕ
  pub text : Result String AnyError

module _ (host_of : Url → Option String) (send : Url → HeaderMap → Result Reply AnyError)
    (self : TemplateResolverAdapter) where
  unfoldable pub check_domain : Url → Result (Unit {0}) ResolveError
  check_domain url =
      if contains (unwrap_or_default (host_of url)) self.allowed_domains
      then ok tt
      else err (domain_not_allowed url)

  unfoldable pub request_headers : Url → HeaderMap
  request_headers url = headers_of_host self.auth_headers (host_of url)

  -- `resolve_remote`; `error_for_status` refuses the statuses from 400 to 599.
  unfoldable pub resolve_remote : Url → Result String ResolveError
  resolve_remote url = elim (send url (request_headers url)) [
    | err _ ↦ err (fetch url "http request failed")
    | ok reply ↦
        if leb 400 reply.status && ltb reply.status 600
        then err (fetch url "http error response")
        else elim reply.text [ ok text ↦ ok text | err _ ↦ err (fetch url "reading response body") ]
  ]

  unfoldable pub resolve_mjml : MjmlSource → Result String ResolveError
  resolve_mjml (Body.inline s) = ok s
  resolve_mjml (Body.named name) = elim (lookup name self.templates) [
    | some source ↦ ok source
    | none ↦ err (not_found name)
  ]
  resolve_mjml (Body.remote url) = elim (check_domain url) [
    | err e ↦ err e
    | ok _ ↦ resolve_remote url
  ]

  unfoldable pub resolve : BodySource → Result ResolvedBody ResolveError
  resolve (BodySource.plain p) = ok (ResolvedBody.plain p)
  resolve (BodySource.mjml source) = elim (resolve_mjml source) [
    | ok text ↦ ok (ResolvedBody.mjml text)
    | err e ↦ err e
  ]
