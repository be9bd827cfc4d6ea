-- ===== src/Fetcher/Fetched.antt =====
-- What an attachment that was fetched is.
use catapulte.Common.{
  ℕ, ◌+◌, ◌≤◌, ◌<◌, ◌%◌, ◌^◌, String, ◌≡◌, ◌∙◌, refl, sym, ap, Bool, true, false, not, ◌&&◌, Option,
  none, some, Result, ok, err, length, length-take, take, arith, leb, ltb, ◌==◌, if◌then◌else◌,
  ok-else, ok-then, ok-step, ok-injective,
}
use catapulte.Entity.{AnyError, Bytes}
use catapulte.Http.Reader.{Source}
use catapulte.Port.Types.{AttachmentFetchError, AttachmentReader}
use catapulte.Fetcher.{
  HttpAttachmentFetcher, Response, Target, contains, fetch_attachment, is_allowed_scheme,
  is_announced_too_large, normalized, one_more, read_body, read_response, read_up_to,
  unwrap_or_default,
}

-- The whole of a stream that ended well and is not above the limit.
abbrev pub IsWhole : ℕ → Source → AttachmentReader → Type 0
IsWhole limit s reader = (reader ≡ ok s.left) × (s.failure ≡ none) × (length s.left ≤ limit)

one_more-suc : (n : ℕ) → n + 1 < 2 ^ 64 → (n + 1) % 2 ^ 64 ≡ n + 1
one_more-suc n small = omega (arith, small)

not-false : (b : Bool) → not b ≡ false → b ≡ true
not-false true e = refl
not-false false e = cc

ended_well :
    (failure : Option AnyError) (left buf : Bytes) (e : AttachmentFetchError)
    → (elim failure as (λ _. Result Bytes AttachmentFetchError) [ none ↦ ok left | some _ ↦ err e ])
      ≡ ok buf
    → (failure ≡ none) × (left ≡ buf)
ended_well none left buf e h = (refl, ok-injective left buf h)
ended_well (some x) left buf e h = cc

short-cases :
    (limit : ℕ) (s : Source) (buf : Bytes) (x : AttachmentFetchError) (t : Bool)
    → leb limit (length s.left) ≡ t
    → (if t
        then ok (take limit s.left)
        else elim s.failure as (λ _. Result Bytes AttachmentFetchError) [
          | none ↦ ok s.left
          | some _ ↦ err x
        ])
      ≡ ok buf
    → (length buf == limit) ≡ false
    → (s.left ≡ buf) × (s.failure ≡ none) × (length s.left < limit)
short-cases limit s buf x true long e short = absurd (
    ground
      (arith, long, short, length-take limit s.left, ap (λ l. length l) (ok-injective _ buf e)))
short-cases limit s buf x false less e short =
    let (well, same) = ended_well s.failure s.left buf x e in (same, well, ground (arith, less))

module _ (to_lowercase : String → String) where
  read_body-IsWhole :
      (f : HttpAttachmentFetcher) (s : Source) (reader : AttachmentReader)
      → f.max_bytes + 1 < 2 ^ 64
      → read_body to_lowercase f s ≡ ok reader
      → IsWhole f.max_bytes s reader
  unfolding read_body read_up_to
  read_body-IsWhole f s reader small e =
      let limit = one_more to_lowercase f.max_bytes in
      let (buf, read, more) = ok-step (read_up_to to_lowercase limit s) _ _ reader e in
      let (short, same) = ok-else (length buf == limit) _ _ reader more in
      let (all, well, less) =
        short-cases limit s buf _ (leb limit (length s.left)) refl read short in
      (
        sym (ok-injective _ reader same) ∙ ap (λ b. ok b) (sym all),
        well,
        omega (arith, less, one_more-suc f.max_bytes small),
      )

  -- What a fetch that succeeds says of its target: it was asked for by an allowed scheme and from a
  -- host of the list, the response was a success, and the attachment is its whole body.
  abbrev pub IsFetched :
      (Target → Result Response AnyError)
      → HttpAttachmentFetcher
      → Target
      → AttachmentReader
      → Type 0
  IsFetched send f url reader =
      (is_allowed_scheme to_lowercase f url.scheme ≡ true)
      × (contains (normalized to_lowercase (unwrap_or_default url.host)) f.allowed_domains ≡ true)
      × (response : Response) × (send url ≡ ok response)
      × (200 ≤ response.status)
      × (response.status < 300)
      × IsWhole f.max_bytes response.body reader

  response-IsWhole :
      (f : HttpAttachmentFetcher) (r : Response) (reader : AttachmentReader)
      → f.max_bytes + 1 < 2 ^ 64
      → read_response to_lowercase f r ≡ ok reader
      → (200 ≤ r.status) × (r.status < 300) × IsWhole f.max_bytes r.body reader
  unfolding read_response
  response-IsWhole f r reader small e =
      let (success, rest) = ok-then (leb 200 r.status && ltb r.status 300) _ _ reader e in
      let (_, read) =
        ok-else (is_announced_too_large to_lowercase f r.content_length) _ _ reader rest in
      (
        ground (arith, success),
        ground (arith, success),
        read_body-IsWhole f r.body reader small read,
      )

  -- An attachment that is fetched, by a fetcher whose limit does not fill a u64, comes by an allowed
  -- scheme from an allowed host in a successful response, and is its whole body, which ended without
  -- an error and has at most the limit of bytes.
  pub fetch_attachment-IsFetched :
      (send : Target → Result Response AnyError) (f : HttpAttachmentFetcher) (url : Target)
      (reader : AttachmentReader)
      → f.max_bytes + 1 < 2 ^ 64
      → fetch_attachment to_lowercase send f url ≡ ok reader
      → IsFetched send f url reader
  unfolding fetch_attachment
  fetch_attachment-IsFetched send f url reader small e =
      let scheme = is_allowed_scheme to_lowercase f url.scheme in
      let host =
        contains (normalized to_lowercase (unwrap_or_default url.host)) f.allowed_domains in
      let (a, rest) = ok-else (not scheme) _ _ reader e in
      let (b, more) = ok-else (not host) _ _ reader rest in
      let (response, sent, last) = ok-step (send url) _ _ reader more in
      let (from, to', whole) = response-IsWhole f response reader small last in
      (not-false scheme a, not-false host b, response, sent, from, to', whole)
