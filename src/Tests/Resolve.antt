-- ===== src/Tests/Resolve.antt =====
-- A template from a host with a bearer token.
use Prim.Native.String.{◌++◌ as join}
use catapulte.Common.{String, List, [], ◌∷◌, refl, Option, some, Result, ok}
use catapulte.Entity.{AnyError, Url}
use catapulte.Fetcher.{contains}
use catapulte.Resolver.{
  HeaderMap, Headers, Reply, ResolverAuthEntry, TemplateResolverAdapter, append_headers,
  check_domain, headers_of, headers_of_host, insert_entries, lookup, new, request_headers,
  resolve_mjml, resolve_remote, token_headers,
}
use catapulte.Resolver.Secrets.{AreOwn, IsReply, resolve_mjml-IsReply}

abbrev library : Headers
library = record {
  parse_name = λ name. ok name;
  parse_value = λ value. ok value;
  bearer = λ token. join "Bearer " token;
}

abbrev entries : List ResolverAuthEntry
entries = record { host = "example.com"; bearer_token = some "secret"; headers = [] } ∷ []

abbrev adapter : TemplateResolverAdapter
adapter = record {
  templates = [];
  allowed_domains = "example.com" ∷ [];
  auth_headers = ("example.com", ("authorization", "Bearer secret") ∷ []) ∷ [];
}

abbrev host_of : Url → Option String
host_of url = some "example.com"

abbrev send : Url → HeaderMap → Result Reply AnyError
send url headers = ok (record { status = 200; text = ok "<mjml></mjml>" })

resolve_mjml-IsReply_example :
    (headers : HeaderMap) × AreOwn library entries (some "example.com") headers
    × IsReply library host_of send
        ("example.com" ∷ [])
        "https://example.com/a"
        headers
        "<mjml></mjml>"
unfolding new insert_entries headers_of token_headers append_headers lookup resolve_mjml
    check_domain contains resolve_remote request_headers headers_of_host
resolve_mjml-IsReply_example =
    resolve_mjml-IsReply library host_of send [] ("example.com" ∷ []) entries adapter
      "https://example.com/a" "<mjml></mjml>" refl refl
