-- ===== src/Resolver/Secrets.antt =====
-- Which credentials adapter/outbound-resolver/src/resolver.rs attaches to the request that it hands to the
-- HTTP client. The client's policy is left at its default, under which it follows redirects by itself;
-- that is part of the parameter `send`, and neither the list of domains nor the choice of headers is
-- applied to a redirect.
use catapulte.Common.{
  String, List, [], ◌∷◌, ◌≡◌, ◌∙◌, ◌⊎◌, refl, sym, ap, subst, Bool, true, false, ◌&&◌, Option, none,
  some, Result, ok, All, Elem, leb, ltb, str_eq, eq_iff, ok-step, ok-else, ok-then, ok-injective,
  if◌then◌else◌, inl, inr,
}
use catapulte.Entity.{AnyError, Url}
use catapulte.Entity.Body
use catapulte.Fetcher.{contains, unwrap_or_default}
use catapulte.Resolver.{
  HeaderMap, Headers, Reply, ResolverAuthEntry, TemplateResolverAdapter, check_domain, headers_of,
  insert_entries, headers_of_host, is_some, lookup, new, request_headers, resolve_mjml,
  resolve_remote,
}

same-map : (a b : HeaderMap) → some a ≡ some b → a ≡ b
same-map a b e = cc

module _ (lib : Headers) where
  -- The headers are those of an entry, which is configured for the host.
  abbrev pub IsConfigured : List ResolverAuthEntry → String → HeaderMap → Type 0
  IsConfigured entries host map =
      (entry : ResolverAuthEntry) × Elem entry entries
      × (entry.host ≡ host)
      × (headers_of lib entry ≡ ok map)

  abbrev AreConfigured : List ResolverAuthEntry → List (String × HeaderMap) → Type 0
  AreConfigured entries auth = All (λ a. IsConfigured entries a.0 a.1) auth

  insert_entries-AreConfigured :
      (all_entries entries : List ResolverAuthEntry) (auth result : List (String × HeaderMap))
      → ((e : ResolverAuthEntry) → Elem e entries → Elem e all_entries)
      → AreConfigured all_entries auth
      → insert_entries lib entries auth ≡ ok result
      → AreConfigured all_entries result
  unfolding insert_entries
  insert_entries-AreConfigured all_entries [] auth result within all e =
      subst (AreConfigured all_entries) (ok-injective auth result e) all
  insert_entries-AreConfigured all_entries (entry ∷ rest) auth result within all e =
      let (_, more) = ok-else (is_some (lookup entry.host auth)) _ _ result e in
      let (map, made, last) = ok-step (headers_of lib entry) _ _ result more in
      insert_entries-AreConfigured all_entries rest ((entry.host, map) ∷ auth) result
        (λ x here. within x (inr here)) ((entry, within entry (inl refl), refl, made), all) last

  -- The first entry of a list whose host is the one that is looked for, or what the rest has.
  first-IsConfigured :
      (entries : List ResolverAuthEntry) (host h : String) (m map : HeaderMap)
      (rest : Option HeaderMap) (same : Bool)
      → (same ≡ true → h ≡ host)
      → IsConfigured entries h m
      → (rest ≡ some map → IsConfigured entries host map)
      → (if same then some m else rest) ≡ some map
      → IsConfigured entries host map
  first-IsConfigured entries host h m map rest true is here there e =
      subst (IsConfigured entries host) (same-map m map e)
        (subst (λ x. IsConfigured entries x m) (is refl) here)
  first-IsConfigured entries host h m map rest false is here there e = there e

  lookup-IsConfigured :
      (entries : List ResolverAuthEntry) (host : String) (auth : List (String × HeaderMap))
      (map : HeaderMap)
      → AreConfigured entries auth
      → lookup host auth ≡ some map
      → IsConfigured entries host map
  unfolding lookup
  lookup-IsConfigured entries host [] map all e = cc
  lookup-IsConfigured entries host ((h, m) ∷ auth) map (here, all) e =
      first-IsConfigured entries host h m map (lookup host auth) (str_eq h host) ((eq_iff h host).0)
        here (lookup-IsConfigured entries host auth map all) e

  cons-absent :
      (name h : String) (m : HeaderMap) (same : Bool) (rest : Option HeaderMap)
      → (if same then some m else rest) ≡ none
      → (same ≡ false) × (rest ≡ none)
  cons-absent name h m true rest e = cc
  cons-absent name h m false rest e = (refl, e)

  -- No entry is configured for the host.
  abbrev pub IsUnconfigured : List ResolverAuthEntry → Option String → Type 0
  IsUnconfigured entries none = Unit
  IsUnconfigured entries (some name) = All (λ e. str_eq e.host name ≡ false) entries

  insert_entries-IsUnconfigured :
      (entries : List ResolverAuthEntry) (auth result : List (String × HeaderMap)) (name : String)
      → insert_entries lib entries auth ≡ ok result
      → lookup name result ≡ none
      → (lookup name auth ≡ none) × IsUnconfigured entries (some name)
  unfolding insert_entries lookup
  insert_entries-IsUnconfigured [] auth result name e absent =
      (subst (λ l. lookup name l ≡ none) (sym (ok-injective auth result e)) absent, tt)
  insert_entries-IsUnconfigured (entry ∷ rest) auth result name e absent =
      let (_, more) = ok-else (is_some (lookup entry.host auth)) _ _ result e in
      let (map, made, last) = ok-step (headers_of lib entry) _ _ result more in
      let (before, all) =
        insert_entries-IsUnconfigured rest ((entry.host, map) ∷ auth) result name last absent in
      let (other, none_before) =
        cons-absent name entry.host map (str_eq entry.host name) (lookup name auth) before in
      (none_before, (other, all))

  -- The headers of a request to a host: those of an entry that is configured for just that host, or
  -- none, if there is no such entry.
  abbrev pub AreOwn : List ResolverAuthEntry → Option String → HeaderMap → Type 0
  AreOwn entries host map =
      ((map ≡ []) × IsUnconfigured entries host)
      ⊎ ((name : String) × (host ≡ some name) × IsConfigured entries name map)

  found-AreOwn :
      (entries : List ResolverAuthEntry) (name : String) (found : Option HeaderMap)
      → (found ≡ none → IsUnconfigured entries (some name))
      → ((map : HeaderMap) → found ≡ some map → IsConfigured entries name map)
      → AreOwn entries (some name) (elim found as (λ _. HeaderMap) [ some map ↦ map | none ↦ [] ])
  found-AreOwn entries name none absent all = inl (refl, absent refl)
  found-AreOwn entries name (some map) absent all = inr (name, refl, all map refl)

  headers_of_host-AreOwn :
      (entries : List ResolverAuthEntry) (host : Option String) (auth : List (String × HeaderMap))
      → insert_entries lib entries [] ≡ ok auth
      → AreOwn entries host (headers_of_host auth host)
  unfolding headers_of_host
  headers_of_host-AreOwn entries none auth made = inl (refl, tt)
  headers_of_host-AreOwn entries (some name) auth made =
      found-AreOwn entries name (lookup name auth)
        (λ absent. (insert_entries-IsUnconfigured entries [] auth name made absent).1)
        (λ map e.
          lookup-IsConfigured entries name auth map
            (insert_entries-AreConfigured entries entries [] auth (λ x here. here) tt made) e)

  new-auth :
      (templates : List (String × String)) (allowed : List String)
      (entries : List ResolverAuthEntry) (self : TemplateResolverAdapter)
      → new lib templates allowed entries ≡ ok self
      → (self.allowed_domains ≡ allowed) × (insert_entries lib entries [] ≡ ok self.auth_headers)
  unfolding new
  new-auth templates allowed entries self e =
      let (auth, made, same) = ok-step (insert_entries lib entries []) _ _ self e in
      (
        sym (ap (λ s. s.allowed_domains) (ok-injective _ self same)),
        made ∙ ap (λ s. ok s.auth_headers) (ok-injective _ self same),
      )

  module _ (host_of : Url → Option String) (send : Url → HeaderMap → Result Reply AnyError) where
    -- A template that was read from a url: its host is allowed, and it is the text of the reply to a
    -- request with those headers, which is no error response.
    abbrev pub IsReply : List String → Url → HeaderMap → String → Type 0
    IsReply allowed url headers text =
        (contains (unwrap_or_default (host_of url)) allowed ≡ true)
        × (reply : Reply) × (send url headers ≡ ok reply)
        × ((leb 400 reply.status && ltb reply.status 600) ≡ false)
        × (reply.text ≡ ok text)

    remote-IsReply :
        (self : TemplateResolverAdapter) (url : Url) (text : String)
        → resolve_mjml host_of send self (Body.remote url) ≡ ok text
        → IsReply self.allowed_domains url (headers_of_host self.auth_headers (host_of url)) text
    unfolding resolve_mjml check_domain resolve_remote request_headers
    remote-IsReply self url text e =
        let (unit, allowed, rest) = ok-step (check_domain host_of send self url) _ _ text e in
        let (within, _) =
          ok-then (contains (unwrap_or_default (host_of url)) self.allowed_domains) _ _ unit
            allowed in
        let (reply, sent, more) =
          ok-step (send url (headers_of_host self.auth_headers (host_of url))) _ _ text rest in
        let (fine, last) = ok-else (leb 400 reply.status && ltb reply.status 600) _ _ text more in
        let (text', read, same) = ok-step reply.text _ _ text last in
        (within, reply, sent, fine, read ∙ ap (λ t. ok t) (ok-injective text' text same))

    -- If a resolver gives a remote template, then the HTTP client was handed a request for its url,
    -- whose host is in the configured list, and the template is the text of the client's reply, which
    -- is no error response. The request carries the headers of an entry that is configured for exactly
    -- the url's host, or none if there is no such entry. What the client does with a request, such as
    -- following a redirect of the host, is not part of this.
    pub resolve_mjml-IsReply :
        (templates : List (String × String)) (allowed : List String)
        (entries : List ResolverAuthEntry) (self : TemplateResolverAdapter) (url : Url)
        (text : String)
        → new lib templates allowed entries ≡ ok self
        → resolve_mjml host_of send self (Body.remote url) ≡ ok text
        → (headers : HeaderMap) × AreOwn entries (host_of url) headers
          × IsReply allowed url headers text
    resolve_mjml-IsReply templates allowed entries self url text made e =
        let (same, auth) = new-auth templates allowed entries self made in
        let headers = headers_of_host self.auth_headers (host_of url) in
        (
          headers,
          headers_of_host-AreOwn entries (host_of url) self.auth_headers auth,
          subst (λ l. IsReply l url headers text) same (remote-IsReply self url text e),
        )
