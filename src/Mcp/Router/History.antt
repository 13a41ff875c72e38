-- ===== src/Mcp/Router/History.antt =====
-- The table of mcp_routing/mcp_router.py after any sequence of handlers.
use signal_count.Base.{
  ℕ, String, ◌≡◌, ◌↔◌, inl, inr, refl, sym, ap, ◌∙◌, subst, Bool, true, false, Option, none, some,
  List, [], ◌∷◌, ◌==◌, string_eq, nat_beq, if◌then◌else◌, Bool-cases, Option-cases, arith,
}
use signal_count.Base.Dict.{lookup, insert, remove, lookup-insert, lookup-remove}
use signal_count.Base.Outcome.{Outcome, ok, err, ok_inj, Outcome-cases}
use signal_count.Base.Json.{Json}
use signal_count.Base.Text.{is_empty}
use signal_count.Mcp.Router.{
  Service, Services, Response, RegisterBody, Posted, replied, timed_out, raised, RouterError,
  key_error, set_health, route_end, register, deregister, with_health, in_try, unhealthy,
  read_reply, success, deregister_known,
}

-- A handler's effect on the table, as one step: a registration, a deregistration, or the second
-- half of a forwarded request.
pub data Event : Type 0 where
  registering : (now : String) → Outcome String RegisterBody → Event
  deregistering : String → Event
  ending : String → Posted → Event

module _ (show : ℕ → String) where
  -- A request whose handler raises leaves the table as it is.
  abbrev pub table_after : Services → Outcome RouterError (Services × Response) → Services
  table_after services (ok (services', response)) = services'
  table_after services (err e) = services

  abbrev pub step : Event → Services → Services
  step (registering now body) services = (register now body services).0
  step (deregistering name) services = (deregister name services).0
  step (ending name posted) services = table_after services (route_end show name posted services)

  abbrev pub run : List Event → Services → Services
  run [] services = services
  run (e ∷ es) services = run es (step e services)

abbrev endpoint_in : Option Service → Option String
endpoint_in none = none
endpoint_in (some s) = some s.endpoint

abbrev pub endpoint_of : String → Services → Option String
endpoint_of name services = endpoint_in (lookup name services)

-- The endpoint that a name should have after an event, from the requests alone.
abbrev pub expected_after : String → Event → Option String → Option String
expected_after name (registering now (err e)) before = before
expected_after name (registering now (ok b)) before =
    if is_empty b.service
    then before
    else if is_empty b.endpoint
    then before
    else if b.service == name
    then some b.endpoint
    else before
expected_after name (deregistering gone) before =
    if is_empty gone then before else if gone == name then none else before
expected_after name (ending other posted) before = before

abbrev pub expected : String → List Event → Option String → Option String
expected name [] before = before
expected name (e ∷ es) before = expected name es (expected_after name e before)

endpoint_of-insert :
    (name k : String) (s : Service) (services : Services)
    → endpoint_of name (insert k s services)
      ≡ (if k == name then some s.endpoint else endpoint_of name services)
endpoint_of-insert name k s services =
    ap endpoint_in (lookup-insert k name s services) ∙ ground arith

endpoint_of-remove :
    (name k : String) (services : Services)
    → endpoint_of name (remove k services) ≡ (if k == name then none else endpoint_of name services)
endpoint_of-remove name k services = ap endpoint_in (lookup-remove k name services) ∙ ground arith

-- Marking a service keeps every endpoint.
set_health-endpoint_of :
    (name k : String) (h : Bool) (services services' : Services)
    → set_health k h services ≡ ok services'
    → endpoint_of name services' ≡ endpoint_of name services
unfolding set_health
set_health-endpoint_of name k h services services' e = elim (Option-cases (lookup k services)) [
  | inl missing ↦ let bad = rw missing at e in cc
  | inr (s, found) ↦
      let same = ok_inj (rw found at e) in
      subst (λ t. endpoint_of name t ≡ endpoint_of name services) same
        (endpoint_of-insert name k (with_health h s) services ∙ kept s found)
]
  where
    kept :
        (s : Service)
        → lookup k services ≡ some s
        → (if k == name then some s.endpoint else endpoint_of name services)
          ≡ endpoint_of name services
    kept s found = elim (Bool-cases (k == name)) [
      | inr other ↦ rw other refl
      | inl same ↦
          let eq = (string_eq.beq_iff k name).0 same in
          rw same (sym (ap endpoint_in (subst (λ n. lookup n services ≡ some s) eq found)))
    ]

module _ (show : ℕ → String) (name k : String) (services : Services) where
  abbrev Keeps : Outcome RouterError (Services × Response) → Type 0
  Keeps r = endpoint_of name (table_after show services r) ≡ endpoint_of name services

  unhealthy-Keeps : (response : Response) → Keeps (unhealthy k services response)
  unhealthy-Keeps response = elim (Outcome-cases (set_health k false services)) [
    | inl (services', e) ↦ rw e (set_health-endpoint_of name k false services services' e)
    | inr (x, e) ↦ rw e refl
  ]

  in_try-Keeps :
      (h : Bool) (response : Response)
      → Keeps (in_try show k services (set_health k h services) response)
  in_try-Keeps h response = elim (Outcome-cases (set_health k h services)) [
    | inl (services', e) ↦ rw e (set_health-endpoint_of name k h services services' e)
    | inr (key_error, e) ↦ rw e (unhealthy-Keeps _)
  ]

  read_reply-Keeps : (body : Outcome String Json) → Keeps (read_reply show k services body)
  read_reply-Keeps (ok value) = in_try-Keeps true (success value)
  read_reply-Keeps (err e) = unhealthy-Keeps _

  route_end-Keeps : (posted : Posted) → Keeps (route_end show k posted services)
  unfolding route_end
  route_end-Keeps timed_out = unhealthy-Keeps _
  route_end-Keeps (raised e) = unhealthy-Keeps _
  route_end-Keeps (replied status body) = elim (Bool-cases (nat_beq status 204)) [
    | inl empty ↦ rw empty refl
    | inr other ↦ elim (Bool-cases (nat_beq status 200)) [
      | inl good ↦ rw (other, good) (read_reply-Keeps body)
      | inr bad ↦ rw (other, bad) (in_try-Keeps false _)
    ]
  ]

deregister_known_lem :
    (name gone : String) (found : Option Service) (services : Services)
    → lookup gone services ≡ found
    → endpoint_of name (deregister_known gone found services).0
      ≡ (if gone == name then none else endpoint_of name services)
deregister_known_lem name gone (some s) services e = endpoint_of-remove name gone services
deregister_known_lem name gone none services e = elim (Bool-cases (gone == name)) [
  | inr other ↦ rw other refl
  | inl same ↦
      let eq = (string_eq.beq_iff gone name).0 same in
      rw same (ap endpoint_in (subst (λ n. lookup n services ≡ none) eq e))
]

register_lem :
    (name now : String) (b : RegisterBody) (services : Services)
    → endpoint_of name (register now (ok b) services).0
      ≡ expected_after name (registering now (ok b)) (endpoint_of name services)
unfolding register
register_lem name now b services =
    let s : Service = record { endpoint = b.endpoint; registered_at = now; healthy = true } in
    cases (is_empty b.service) (is_empty b.endpoint) (insert b.service s services) _ _ _
      (endpoint_of-insert name b.service s services)
  where
    cases :
        (x y : Bool) (filled : Services) (r1 r2 r3 : Response) {found : Option String}
        → endpoint_of name filled ≡ found
        → let answer : Services × Response =
            if x then (services, r1) else (if y then (services, r2) else (filled, r3)) in
          endpoint_of name answer.0 ≡ (
            if x then endpoint_of name services else if y then endpoint_of name services else found)
    cases true y filled r1 r2 r3 e = refl
    cases false true filled r1 r2 r3 e = refl
    cases false false filled r1 r2 r3 e = e

step-expected :
    (show : ℕ → String) (name : String) (e : Event) (services : Services)
    → endpoint_of name (step show e services) ≡ expected_after name e (endpoint_of name services)
unfolding register deregister
step-expected show name (ending k posted) services = route_end-Keeps show name k services posted
step-expected show name (registering now (err e)) services = refl
step-expected show name (registering now (ok b)) services = register_lem name now b services
step-expected show name (deregistering gone) services =
    cases (is_empty gone) _ (deregister_known gone (lookup gone services) services)
      (deregister_known_lem name gone (lookup gone services) services refl)
  where
    cases :
        (x : Bool) (r : Response) (after : Services × Response) {found : Option String}
        → endpoint_of name after.0 ≡ found
        → let answer : Services × Response = if x then (services, r) else after in
          endpoint_of name answer.0 ≡ (if x then endpoint_of name services else found)
    cases true r after e = refl
    cases false r after e = e

-- After any sequence of registrations, deregistrations and ended requests, the endpoint of a name
-- is the one that the registrations and deregistrations alone say: that of the last registration
-- with a service and an endpoint, if no deregistration of the name follows. Requests, however
-- they end, change none.
pub endpoint_of-run :
    (show : ℕ → String) (name : String) (events : List Event) (services : Services)
    → endpoint_of name (run show events services) ≡ expected name events (endpoint_of name services)
endpoint_of-run show name [] services = refl
endpoint_of-run show name (e ∷ es) services =
    endpoint_of-run show name es (step show e services)
    ∙ ap (expected name es) (step-expected show name e services)

abbrev pub is_no_content : Posted → Bool
is_no_content (replied status body) = nat_beq status 204
is_no_content timed_out = false
is_no_content (raised e) = false

module _ (show : ℕ → String) (name : String) (services : Services) where
  abbrev Crashes : Posted → Type 0
  Crashes posted = route_end show name posted services ≡ err key_error

  missing-Crashes :
      lookup name services ≡ none
      → (posted : Posted) → is_no_content posted ≡ false
      → Crashes posted
  unfolding route_end set_health
  missing-Crashes gone timed_out h = rw gone refl
  missing-Crashes gone (raised e) h = rw gone refl
  missing-Crashes gone (replied status body) h = elim (Bool-cases (nat_beq status 200)) [
    | inr bad ↦ rw (h, bad, gone, gone) refl
    | inl good ↦ elim (Outcome-cases body) [
      | inl (value, e) ↦ rw (h, good, e, gone, gone) refl
      | inr (x, e) ↦ rw (h, good, e, gone) refl
    ]
  ]

  found-not-Crashes :
      (s : Service) (posted : Posted) → lookup name services ≡ some s → ¬ Crashes posted
  unfolding route_end set_health
  found-not-Crashes s timed_out there h = let bad = rw there at h in cc
  found-not-Crashes s (raised e) there h = let bad = rw there at h in cc
  found-not-Crashes s (replied status body) there h = elim (Bool-cases (nat_beq status 204)) [
    | inl empty ↦ let bad = rw empty at h in cc
    | inr other ↦ elim (Bool-cases (nat_beq status 200)) [
      | inr failed ↦ let bad = rw (other, failed, there) at h in cc
      | inl good ↦ elim (Outcome-cases body) [
        | inl (value, e) ↦ let bad = rw (other, good, e, there) at h in cc
        | inr (x, e) ↦ let bad = rw (other, good, e, there) at h in cc
      ]
    ]
  ]

  -- A forwarded request raises a `KeyError` exactly when its service is no longer registered as the
  -- reply comes, and the reply is not of status 204.
  pub route_end-key_error :
      (posted : Posted)
      → Crashes posted ↔ ((lookup name services ≡ none) × (is_no_content posted ≡ false))
  unfolding route_end
  route_end-key_error posted = (
    λ h. elim (Option-cases (lookup name services)) [
      | inr (s, there) ↦ absurd (found-not-Crashes s posted there h)
      | inl gone ↦ (gone, content posted h)
    ],
    λ (gone, h). missing-Crashes gone posted h,
  )
    where
      content : (posted : Posted) → Crashes posted → is_no_content posted ≡ false
      content timed_out h = refl
      content (raised e) h = refl
      content (replied status body) h = elim (Bool-cases (nat_beq status 204)) [
        | inr other ↦ other
        | inl empty ↦ let bad = rw empty at h in cc
      ]
