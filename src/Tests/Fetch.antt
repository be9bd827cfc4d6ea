-- ===== src/Tests/Fetch.antt =====
-- A fetch from an allowed host.
use catapulte.Common.{String, [], ◌∷◌, refl, false, none, some, Result, ok, arith}
use catapulte.Entity.{AnyError}
use catapulte.Fetcher.{
  HttpAttachmentFetcher, Response, Target, contains, fetch_attachment, normalized, read_body,
  read_response, read_up_to,
}
use catapulte.Fetcher.Fetched.{IsFetched, fetch_attachment-IsFetched}
use catapulte.Routing.Domain.{trim_dots}

abbrev lower : String → String
lower s = s

abbrev fetcher : HttpAttachmentFetcher
fetcher = record { allowed_domains = "example.com" ∷ []; allow_http = false; max_bytes = 2 }

abbrev target : Target
target = record { scheme = "https"; host = some "example.com."; text = "https://example.com./a" }

abbrev response : Response
response = record {
  status = 200;
  content_length = none;
  body = record { left = 1 ∷ 2 ∷ []; failure = none };
}

abbrev send : Target → Result Response AnyError
send url = ok response

fetch_attachment-IsFetched_example : IsFetched lower send fetcher target (ok (1 ∷ 2 ∷ []))
unfolding fetch_attachment contains normalized trim_dots read_response read_body read_up_to
fetch_attachment-IsFetched_example =
    fetch_attachment-IsFetched lower send fetcher target (ok (1 ∷ 2 ∷ [])) (omega arith) refl
