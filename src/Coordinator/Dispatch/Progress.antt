-- ===== src/Coordinator/Dispatch/Progress.antt =====
-- The rounds of `_dispatch_role` (app/coordinator/service.py) when the candidates' peer ids are
-- distinct.
use signal_count.Base.{
  ℕ, suc, ◌+◌, ◌<◌, ◌≡◌, ◌⊎◌, inl, inr, refl, ap, sym, ◌∙◌, subst, String, true, false, Option,
  some, List, [], ◌∷◌, ◌++◌, map, length, length-append, length-map, is_mem, is_mem-cons,
  is_mem-append, IsDistinct, IsDistinct-snoc, length-le_of_subset, string_eq, List-cases, arith,
  Bool-cases,
}
use signal_count.Base.Outcome.{Outcome, ok, err, ok_inj, Outcome-cases}
use signal_count.Base.Floats.{Floats}
use signal_count.Base.Json.{Fields}
use signal_count.Schemas.{SpecialistResponse}
use signal_count.Axl.Registry.{PeerService, AxlRegistry, get_candidates_for_role}
use signal_count.Axl.Capability.{PeerSelection}
use signal_count.Axl.Capability.Selection.{IsService, select_for_role_lem}
use signal_count.Coordinator.Dispatch.{
  Reply, responded, timed_out, raised, handle, Payload, Transport, Attempts, finished, again,
  context_mismatches, attempt, after_failure, round, set_add,
}

abbrev pub peer_ids : List PeerService → List String
peer_ids services = map (λ s. s.peer_id) services

-- A service whose peer has not failed, or all have.
live_or_none :
    (services : List PeerService) (failed : List String)
    → ((live : PeerService) × IsService live services × (is_mem live.peer_id failed ≡ false))
      ⊎ ((p : String) → is_mem p (peer_ids services) ≡ true → is_mem p failed ≡ true)
live_or_none [] failed = inr (λ p m. cc)
live_or_none (s ∷ ss) failed = elim (Bool-cases (is_mem s.peer_id failed)) [
  | inr fresh ↦ inl (s, inl refl, fresh)
  | inl gone ↦ elim (live_or_none ss failed) [
    | inl (live, among, fresh) ↦ inl (live, inr among, fresh)
    | inr all ↦ inr (λ p m. elim (is_mem-cons p s.peer_id (peer_ids ss) m) [
      | inl same ↦ subst (λ q. is_mem q failed ≡ true) same gone
      | inr later ↦ all p later
    ])
  ]
]

pub service_mem :
    (x : PeerService) (services : List PeerService)
    → IsService x services
    → is_mem x.peer_id (peer_ids services) ≡ true
service_mem x [] m = absurd m
service_mem x (s ∷ ss) (inl same) =
    subst (λ y. is_mem y.peer_id (peer_ids (s ∷ ss)) ≡ true) (sym same)
      (rw ((string_eq.beq_iff s.peer_id s.peer_id).1 refl) refl)
service_mem x (s ∷ ss) (inr later) = ground (arith, service_mem x ss later)

-- With fewer failures than distinct candidates, a candidate is left.
find_live :
    (services : List PeerService) (failed : List String)
    → IsDistinct (peer_ids services)
    → length failed < length services
    → (live : PeerService) × IsService live services × (is_mem live.peer_id failed ≡ false)
find_live services failed d h = elim (live_or_none services failed) [
  | inl found ↦ found
  | inr all ↦ absurd (
      omega (
        arith,
        length-le_of_subset (peer_ids services) failed d all,
        length-map (λ (s : PeerService). s.peer_id) services,
      ))
]

module _ (fl : Floats) (r : AxlRegistry) (role job_id : String) (topology : Option Fields)
    (payload : Payload) (call : Transport (fl.Float)) where
  open fl use {Float}

  abbrev pub try_peer : ℕ → PeerService → Outcome String (SpecialistResponse Float)
  try_peer = attempt fl r role job_id topology payload call

  valid_context :
      (response : SpecialistResponse Float) (peer_id : String)
      → context_mismatches response job_id role peer_id ≡ []
      → (response.job_id ≡ job_id) × (response.node_role ≡ role) × (response.peer_id ≡ peer_id)
  unfolding context_mismatches
  valid_context response peer_id h = ground (
    arith,
    string_eq.beq_iff response.job_id job_id,
    string_eq.beq_iff response.node_role role,
    string_eq.beq_iff response.peer_id peer_id,
  )

  handle_context :
      (reply : Reply Float) (peer_id : String) (response : SpecialistResponse Float)
      → handle fl r role job_id topology payload call peer_id reply ≡ ok response
      → (response.job_id ≡ job_id) × (response.node_role ≡ role) × (response.peer_id ≡ peer_id)
  handle_context timed_out peer_id response h = cc
  handle_context raised peer_id response h = cc
  handle_context (responded answer) peer_id response h =
      elim (List-cases (context_mismatches answer job_id role peer_id)) [
        | inl none_wrong ↦
            let same : answer ≡ response = ok_inj (rw none_wrong at h) in
            subst (λ x. (x.job_id ≡ job_id) × (x.node_role ≡ role) × (x.peer_id ≡ peer_id)) same
              (valid_context answer peer_id none_wrong)
        | inr (m, ms, wrong) ↦ let bad = rw wrong at h in cc
      ]

  -- A response that a round takes has the job id, the role and the peer id that were asked for.
  pub attempt_context :
      (n : ℕ) (s : PeerService) (response : SpecialistResponse Float)
      → try_peer n s ≡ ok response
      → (response.job_id ≡ job_id) × (response.node_role ≡ role) × (response.peer_id ≡ s.peer_id)
  unfolding attempt
  attempt_context n s response h =
      handle_context (call n s.peer_id s.service_name payload) s.peer_id response h

  module _ (services : List PeerService) where
    -- Each of these peers was called in turn, from call `n` on, and gave no valid response.
    abbrev pub Refused : ℕ → List String → Type 0
    Refused n [] = Unit
    Refused n (p ∷ ps) =
        ((s : PeerService) × IsService s services
          × (s.peer_id ≡ p)
          × ((status : String) × (try_peer n s ≡ err status)))
        × Refused (suc n) ps

    Refused-snoc :
        (n : ℕ) (ps : List String) (s : PeerService) (status : String)
        → Refused n ps
        → IsService s services
        → try_peer (n + length ps) s ≡ err status
        → Refused n (ps ++ s.peer_id ∷ [])
    Refused-snoc n [] s status h among e =
        let here : n + 0 ≡ n = omega arith in ((s, among, refl, (status, rw here at e)), tt)
    Refused-snoc n (p ∷ ps) s status h among e =
        let here : n + suc (length ps) ≡ suc n + length ps = omega arith in
        (h.0, Refused-snoc (suc n) ps s status h.1 among (rw here at e))

    -- The loop's invariant: every attempt has failed, and no peer was tried twice.
    pub record Tried (a : Attempts Float) : Type 0 where
      pub same : a.failed ≡ a.attempted
      pub distinct : IsDistinct a.failed
      pub known : (p : String) → is_mem p a.failed ≡ true → is_mem p (peer_ids services) ≡ true
      pub refused : Refused 0 a.failed
      pub last : (a.failed ≡ []) ⊎ ((sel : PeerSelection Float) × (a.last_selection ≡ some sel))

  module _ (s : PeerService) (ss : List PeerService)
      (found : get_candidates_for_role r role ≡ ok (s ∷ ss))
      (unique : IsDistinct (peer_ids (s ∷ ss))) where
    -- A selected peer that refuses extends the attempts.
    Tried-more :
        (a : Attempts Float) (sel : PeerSelection Float) (status : String)
        → Tried (s ∷ ss) a
        → IsService sel.service (s ∷ ss)
        → is_mem sel.service.peer_id a.failed ≡ false
        → try_peer (length a.attempted) sel.service ≡ err status
        → Tried (s ∷ ss) (after_failure fl r role job_id topology payload call a sel status)
          × (length (set_add sel.service.peer_id a.failed) ≡ suc (length a.failed))
    Tried-more a sel status t among fresh e =
        let p = sel.service.peer_id in
        let grown : set_add p a.failed ≡ a.failed ++ p ∷ [] = rw fresh refl in
        let calls : length a.attempted ≡ 0 + length a.failed = rw (← t.same) (omega arith) in
        (
          record {
            same = grown ∙ ap (λ l. l ++ p ∷ []) t.same;
            distinct = rw fresh (IsDistinct-snoc a.failed p t.distinct fresh);
            known = λ q m. ground (
              arith,
              t.known q,
              fresh,
              m,
              is_mem-append q a.failed (p ∷ []),
              string_eq.beq_iff p q,
              service_mem sel.service (s ∷ ss) among,
            );
            refused = rw fresh (
                Refused-snoc (s ∷ ss) 0 a.failed sel.service status t.refused among
                  (rw calls at e));
            last = inr (sel, refl);
          },
          rw fresh (omega (arith, length-append a.failed (p ∷ []))),
        )

    abbrev pub Progress : Attempts Float → Type 0
    Progress a =
        ((response : SpecialistResponse Float) × (sel : PeerSelection Float) × (round fl r role
              job_id topology payload call a
            ≡ ok (finished response sel (a.attempted ++ sel.service.peer_id ∷ [])))
          × IsService sel.service (s ∷ ss)
          × (is_mem sel.service.peer_id a.failed ≡ false)
          × (try_peer (length a.attempted) sel.service ≡ ok response))
        ⊎ ((a' : Attempts Float) × (round fl r role job_id topology payload call a ≡ ok (again a'))
            × Tried (s ∷ ss) a'
            × (length a'.failed ≡ suc (length a.failed)))

    pub round_lem :
        (a : Attempts Float) → Tried (s ∷ ss) a → length a.failed < length (s ∷ ss) → Progress a
    unfolding round
    round_lem a t h =
        let (live, among, fresh) = find_live (s ∷ ss) a.failed unique h in
        let (sel, chosen, is_sel, avoids) =
          select_for_role_lem fl r role topology [] a.failed s ss found in
        let new = avoids live among fresh in
        elim (Outcome-cases (try_peer (length a.attempted) sel.service)) [
          | inl (response, e) ↦ inl (response, sel, rw (chosen, e) refl, is_sel.2, new, e)
          | inr (status, e) ↦
              let (more, longer) = Tried-more a sel status t is_sel.2 new e in
              inr (
                after_failure fl r role job_id topology payload call a sel status,
                rw (chosen, e) refl,
                more,
                longer,
              )
        ]
