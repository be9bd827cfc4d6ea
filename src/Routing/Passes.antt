-- ===== src/Routing/Passes.antt =====
-- What the passes over the candidates do: whom they ask, in which order, and how often an email is
-- delivered.
use catapulte.Common.{
  suc, List, [], ◌∷◌, ◌++◌, ◌≡◌, ◌≢◌, ◌∙◌, refl, ap, Bool, false, not, Option, none, some, Result,
  ok, err, arith, filter, Bool-cases, inl, inr, Result-elim,
}
use catapulte.Entity.{AnyError}
use catapulte.Entity.Sender.{SenderName}
use catapulte.Port.Types.{OutboundEmail, SendError, send}
use catapulte.Port.Call.{After, History, Oracle, Transport, deliver}
use catapulte.Port.Rules.{After-try}
use catapulte.Port.Trace.{attempts, accepted}
use catapulte.Routing.{
  SenderRoute, SentMap, PassResult, over_quota, deliver_pass, send_through, second_result,
  first_result, bypass_quota,
}

-- The transports of `rs`, asked one after the other, on top of those asked before.
abbrev pub ask_all : List SenderRoute → List Transport → List Transport
ask_all [] before = before
ask_all (r ∷ rs) before = ask_all rs (r.transport ∷ before)

-- The name of the last of `rs`, or else `name`.
abbrev pub last_name : SenderName → List SenderRoute → SenderName
last_name name [] = name
last_name name (r ∷ rs) = last_name r.name rs

abbrev pub within : (SenderRoute → Bool) → List SenderRoute → List SenderRoute
within skip = filter (λ r. not (skip r))

-- Those that the first pass asks, or all if there is none such.
abbrev pub first_or_all : List SenderRoute → List SenderRoute → List SenderRoute
first_or_all [] cands = cands
first_or_all (r ∷ rs) cands = r ∷ rs

-- The candidates whose quota is not used up, or all if every quota is.
abbrev pub eligible : SentMap → List SenderRoute → List SenderRoute
eligible sent cands = first_or_all (within (over_quota sent) cands) cands

within-all : (rs : List SenderRoute) → within (λ _. false) rs ≡ rs
within-all [] = refl
within-all (r ∷ rs) = ap (λ l. r ∷ l) (within-all rs)

nil-ne-append : (xs ys : List SenderRoute) (r : SenderRoute) → [] ≢ xs ++ r ∷ ys
nil-ne-append [] ys r e = cc
nil-ne-append (x ∷ xs) ys r e = cc

module _ (o : Oracle) where
  -- The routes `eligible` were asked in their order until one, `route`, delivered: exactly one
  -- delivery was made, and those before `route` have all refused.
  pub record Delivered (eligible : List SenderRoute) (name : SenderName) (start h : History)
      : Type 0 where
    pub before : List SenderRoute
    pub route : SenderRoute
    pub behind : List SenderRoute
    pub found : eligible ≡ before ++ route ∷ behind
    pub named : route.name ≡ name
    pub asked : attempts h ≡ route.transport ∷ ask_all before (attempts start)
    pub once : accepted o h ≡ suc (accepted o start)

  -- All of `eligible` were asked in their order, and no delivery was made.
  pub record Exhausted (eligible : List SenderRoute) (start h : History) : Type 0 where
    pub asked : attempts h ≡ ask_all eligible (attempts start)
    pub undelivered : accepted o h ≡ accepted o start

  -- The error that a pass ends with.
  abbrev pub LastError : List SenderRoute → Option SendError → Option SendError → Type 0
  LastError [] last final = final ≡ last
  LastError (r ∷ rs) last final = (e : _) × (final ≡ some (send (last_name r.name rs) e))

  abbrev pub PassOutcome :
      List SenderRoute → Option SendError → History → PassResult → History → Type 0
  PassOutcome eligible last start (ok name) h = Delivered eligible name start h
  PassOutcome eligible last start (err final) h =
      Exhausted eligible start h × LastError eligible last final

  PassOutcome-refused :
      (r : SenderRoute) (asks : List SenderRoute) (email : OutboundEmail) (last : Option SendError)
      (start h : History) (result : PassResult) {e : _}
      → o start (deliver r.transport email) ≡ err e
      → PassOutcome asks (some (send r.name e)) (deliver r.transport email ∷ start) result h
      → PassOutcome (r ∷ asks) last start result h
  PassOutcome-refused r asks email last start h (ok name) refused d = record {
    before = r ∷ d.before;
    route = d.route;
    behind = d.behind;
    found = ap (λ l. r ∷ l) d.found;
    named = d.named;
    asked = d.asked;
    once = ground arith;
  }
  PassOutcome-refused r [] email last start h (err final) {e} refused d =
      (record { asked = d.0.asked; undelivered = ground (arith, d.0.undelivered) }, (e, d.1))
  PassOutcome-refused r (x ∷ xs) email last start h (err final) refused d =
      (record { asked = d.0.asked; undelivered = ground (arith, d.0.undelivered) }, d.1)

  Delivered-at_once :
      (r : SenderRoute) (asks : List SenderRoute) (email : OutboundEmail) (start : History)
      → o start (deliver r.transport email) ≡ ok tt
      → Delivered (r ∷ asks) r.name start (deliver r.transport email ∷ start)
  Delivered-at_once r asks email start e = record {
    before = [];
    route = r;
    behind = asks;
    found = refl;
    named = refl;
    asked = refl;
    once = ground arith;
  }

  pub deliver_pass-outcome :
      (skip : SenderRoute → Bool) (email : OutboundEmail) (cands : List SenderRoute)
      (last : Option SendError) (start : History)
      → After
          (PassOutcome (within skip cands) last start)
          start
          (deliver_pass o skip email cands last)
  unfolding deliver_pass
  deliver_pass-outcome skip email [] last start =
      (record { asked = refl; undelivered = refl }, refl)
  deliver_pass-outcome skip email (r ∷ rest) last start = elim (Bool-cases (skip r)) [
    | inl e ↦ rw (e, deliver_pass) (deliver_pass-outcome skip email rest last start)
    | inr e ↦
        rw (e, deliver_pass)
          (let asked = deliver r.transport email ∷ start in
            let more = within skip rest in
            Result-elim (After (PassOutcome (r ∷ more) last start) asked)
              (o start (deliver r.transport email)) _ _
              (λ _ accepted. Delivered-at_once r more email start accepted)
              (λ x refused.
                let run = deliver_pass o skip email rest (some (send r.name x)) asked in
                PassOutcome-refused r more email last start run.1 run.0 refused
                  (deliver_pass-outcome skip email rest (some (send r.name x)) asked)))
  ]

  -- The outcome of both passes: a panic is impossible.
  abbrev pub SendOutcome :
      List SenderRoute → History → Option (Result SenderName SendError) → History → Type 0
  SendOutcome rs start none h = ⊥
  SendOutcome rs start (some (ok name)) h = Delivered rs name start h
  SendOutcome [] start (some (err e)) h = ⊥
  SendOutcome (r ∷ rs) start (some (err e)) h =
      Exhausted (r ∷ rs) start h × (x : AnyError) × (e ≡ send (last_name r.name rs) x)

  Delivered-nonempty :
      {name : SenderName} {start h : History} (asks cands : List SenderRoute)
      → Delivered asks name start h
      → Delivered (first_or_all asks cands) name start h
  Delivered-nonempty [] cands d = absurd (nil-ne-append d.before d.behind d.route d.found)
  Delivered-nonempty (r ∷ rs) cands d = d

  pub Delivered-moved :
      {rs : List SenderRoute} {name : SenderName} {start k h : History}
      → Exhausted [] start k
      → Delivered rs name k h
      → Delivered rs name start h
  Delivered-moved x d = record {
    before = d.before;
    route = d.route;
    behind = d.behind;
    found = d.found;
    named = d.named;
    asked = d.asked ∙ ap (λ l. d.route.transport ∷ ask_all d.before l) x.asked;
    once = d.once ∙ ap suc x.undelivered;
  }

  pub Exhausted-moved :
      {rs : List SenderRoute} {start k h : History}
      → Exhausted [] start k
      → Exhausted rs k h
      → Exhausted rs start h
  Exhausted-moved {rs = rs} x y = record {
    asked = y.asked ∙ ap (ask_all rs) x.asked;
    undelivered = y.undelivered ∙ x.undelivered;
  }

  -- The end of the second pass, which has asked all candidates.
  second-outcome :
      (r : SenderRoute) (rs : List SenderRoute) (start k h : History) (final : Option SendError)
      → Exhausted [] start k
      → PassOutcome (r ∷ rs) none k (err final) h
      → After (SendOutcome (r ∷ rs) start) h (second_result final)
  unfolding second_result
  second-outcome r rs start k h none x d = cc d.1.1
  second-outcome r rs start k h (some e) x d = (Exhausted-moved x d.0, d.1.0, ground (arith, d.1.1))

  bypass_quota-outcome :
      (email : OutboundEmail) (r : SenderRoute) (rs : List SenderRoute) (start k : History)
      → Exhausted [] start k
      → After (SendOutcome (r ∷ rs) start) k (bypass_quota o email (r ∷ rs))
  unfolding bypass_quota
  bypass_quota-outcome email r rs start k x =
      let cands = r ∷ rs in
      After-try (SendOutcome cands start) (PassOutcome cands none k)
        (deliver_pass o (λ _. false) email cands none) _ _ k
        (rw within-all at (deliver_pass-outcome (λ _. false) email cands none k))
        (λ name h d. Delivered-moved x d) (λ final h d. second-outcome r rs start k h final x d)

  first-outcome :
      (email : OutboundEmail) (r : SenderRoute) (rs asks : List SenderRoute) (start k : History)
      (last : Option SendError)
      → PassOutcome asks none start (err last) k
      → After
          (SendOutcome (first_or_all asks (r ∷ rs)) start)
          k
          (first_result o email (r ∷ rs) last)
  unfolding first_result
  first-outcome email r rs [] start k none q = bypass_quota-outcome email r rs start k q.0
  first-outcome email r rs [] start k (some e) q = cc q.1
  first-outcome email r rs (x ∷ xs) start k none q = cc q.1.1
  first-outcome email r rs (x ∷ xs) start k (some e) q = (q.0, q.1.0, ground (arith, q.1.1))

  -- Both passes together, over candidates that are not empty. They never panic. They ask the
  -- candidates whose quota is not used up, or all of them if there is none such, in their order,
  -- each at most once, until one accepts the email. A name that is returned is that of the
  -- candidate that accepted, and the email was delivered exactly once; otherwise it was not
  -- delivered, and the error names the last candidate that was asked.
  pub send_through-SendOutcome :
      (sent : SentMap) (email : OutboundEmail) (r : SenderRoute) (rs : List SenderRoute)
      (start : History)
      → After
          (SendOutcome (eligible sent (r ∷ rs)) start)
          start
          (send_through o sent email (r ∷ rs))
  unfolding send_through
  send_through-SendOutcome sent email r rs start =
      let cands = r ∷ rs in
      let asks = within (over_quota sent) cands in
      After-try (SendOutcome (eligible sent cands) start) (PassOutcome asks none start)
        (deliver_pass o (over_quota sent) email cands none) _ _ start
        (deliver_pass-outcome (over_quota sent) email cands none start)
        (λ name k d. Delivered-nonempty asks cands d)
        (λ last k q. first-outcome email r rs asks start k last q)
