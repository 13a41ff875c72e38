-- ===== src/Coordinator/Dispatch/Ends.antt =====
-- How `_dispatch_role` of app/coordinator/service.py ends when the candidates' peer ids are distinct.
use signal_count.Base.{
  ℕ, zero, suc, ◌+◌, ◌≤◌, ◌≡◌, ◌⊎◌, inl, inr, refl, ap, subst, String, true, Option, none, some,
  List, [], ◌∷◌, ◌++◌, length, length-map, IsDistinct, IsDistinct-snoc, ltb, ltb→lt, ltb_of_le,
  le_of_ltb, string_eq, arith, Bool-cases,
}
use signal_count.Base.Outcome.{Outcome, ok}
use signal_count.Base.Floats.{Floats}
use signal_count.Base.Json.{Fields}
use signal_count.Schemas.{SpecialistResponse}
use signal_count.Axl.Registry.{PeerService, AxlRegistry, get_candidates_for_role}
use signal_count.Axl.Capability.{PeerSelection, list_candidates, capability_of}
use signal_count.Axl.Capability.Selection.{IsService}
use signal_count.Coordinator.Dispatch.{
  Payload, Transport, DispatchError, RoleDispatchOutcome, Attempts, finished, LoopEnd, completed,
  exhausted, round, loop, start, completed_outcome, missing_outcome, dispatch_role, transport_name,
}
use signal_count.Coordinator.Dispatch.Progress.{peer_ids, try_peer, Refused, Tried, round_lem}

module _ (fl : Floats) (r : AxlRegistry) (role job_id : String) (topology : Option Fields)
    (payload : Payload) (call : Transport (fl.Float)) (s : PeerService) (ss : List PeerService)
    (found : get_candidates_for_role r role ≡ ok (s ∷ ss))
    (unique : IsDistinct (peer_ids (s ∷ ss))) where
  open fl use {Float}

  abbrev AllRefused : List String → Type 0
  AllRefused ps = Refused fl r role job_id topology payload call (s ∷ ss) 0 ps

  abbrev HasTried : Attempts Float → Type 0
  HasTried a = Tried fl r role job_id topology payload call (s ∷ ss) a

  -- `earlier` were called in turn without a valid response, then `sel` gave `response`.
  abbrev Answered : SpecialistResponse Float → PeerService → List String → Type 0
  Answered response service earlier =
      IsService service (s ∷ ss)
      × AllRefused earlier
      × IsDistinct (earlier ++ service.peer_id ∷ [])
      × (try_peer fl r role job_id topology payload call (length earlier) service ≡ ok response)

  abbrev LoopEnds : Outcome DispatchError (LoopEnd Float) → Type 0
  LoopEnds o =
      ((response : SpecialistResponse Float) × (sel : PeerSelection Float) × (earlier : List String)
        × (o ≡ ok (completed response sel (earlier ++ sel.service.peer_id ∷ [])))
        × Answered response sel.service earlier)
      ⊎ ((a : Attempts Float) × (o ≡ ok (exhausted a))
          × HasTried a
          × (length a.failed ≡ length (s ∷ ss)))

  answered_round :
      (fuel : ℕ) (a : Attempts Float) (response : SpecialistResponse Float)
      (sel : PeerSelection Float)
      → ltb (length a.failed) (length (s ∷ ss)) ≡ true
      → round fl r role job_id topology payload call a
        ≡ ok (finished response sel (a.attempted ++ sel.service.peer_id ∷ []))
      → loop fl r role job_id topology payload call (suc fuel) (length (s ∷ ss)) a
        ≡ ok (completed response sel (a.attempted ++ sel.service.peer_id ∷ []))
  unfolding loop
  answered_round fuel a response sel more e = rw (more, e) refl

  loop_ends :
      (fuel : ℕ) (a : Attempts Float)
      → HasTried a
      → length a.failed ≤ length (s ∷ ss)
      → length (s ∷ ss) ≤ fuel + length a.failed
      → LoopEnds (loop fl r role job_id topology payload call fuel (length (s ∷ ss)) a)
  unfolding loop
  loop_ends zero a t h k =
      inr (a, rw (ltb_of_le (length a.failed) (length (s ∷ ss)) (omega arith)) refl, t, omega arith)
  loop_ends (suc fuel) a t h k = elim (Bool-cases (ltb (length a.failed) (length (s ∷ ss)))) [
    | inr done ↦
        inr (a, rw done refl, t, omega (arith, le_of_ltb (length a.failed) (length (s ∷ ss)) done))
    | inl more ↦
        let left = ltb→lt (length a.failed) (length (s ∷ ss)) more in
        elim (round_lem fl r role job_id topology payload call s ss found unique a t left) [
          | inl (response, sel, e, among, fresh, answer) ↦ inl (
            response,
            sel,
            a.attempted,
            answered_round fuel a response sel more e,
            (
              among,
              subst AllRefused t.same t.refused,
              subst (λ l. IsDistinct (l ++ sel.service.peer_id ∷ [])) t.same
                  (IsDistinct-snoc a.failed sel.service.peer_id t.distinct fresh),
              answer,
            ),
          )
          | inr (a', e, t', longer) ↦
              rw (more, e) (loop_ends fuel a' t' (omega arith) (omega arith))
        ]
  ]

  -- What an outcome says: a response of the peer on record, after the earlier peers gave none, or
  -- no response, after each candidate was called once and gave none.
  abbrev pub Explained : RoleDispatchOutcome Float → Type 0
  Explained o =
      ((response : SpecialistResponse Float) × (service : PeerService) × (earlier : List String)
        × (o.response ≡ some response)
        × (o.execution_record.peer_id ≡ service.peer_id)
        × (o.execution_record.status ≡ "completed")
        × Answered response service earlier)
      ⊎ ((all : List String) × (o.response ≡ none)
          × AllRefused all
          × IsDistinct all
          × (length all ≡ length (s ∷ ss)))

  start-HasTried : HasTried (start fl r role job_id topology payload call)
  start-HasTried = record {
    same = refl;
    distinct = tt;
    known = λ p m. cc;
    refused = tt;
    last = inl refl;
  }

  -- With candidates of distinct peer ids, and as much fuel as there are candidates, the dispatch
  -- ends. Its outcome is a response of the peer on record, after earlier peers gave none, or no
  -- response, after each candidate was called once and gave none.
  pub dispatch_role_ends :
      (fuel : ℕ) (run_mode : String) (latency : Float)
      → length (s ∷ ss) ≤ fuel
      → (o : RoleDispatchOutcome Float) × (dispatch_role fl r role job_id topology payload call fuel
            run_mode latency
          ≡ ok o)
        × Explained o
  unfolding dispatch_role list_candidates
  dispatch_role_ends fuel run_mode latency h =
      let first = start fl r role job_id topology payload call in
      let count = length-map (capability_of fl r role topology [] []) (s ∷ ss) in
      let name = transport_name fl r role job_id topology payload call run_mode in
      elim (loop_ends fuel first start-HasTried (omega arith) (omega arith)) [
        | inl (response, sel, earlier, e, answer) ↦ (
          completed_outcome fl r role job_id topology payload call name latency response sel
              (earlier ++ sel.service.peer_id ∷ []),
          rw (found, count, e) refl,
          inl (response, sel.service, earlier, refl, refl, refl, answer),
        )
        | inr (a, e, t, full) ↦ elim t.last [
          | inl nothing ↦ absurd (omega (arith, ap length nothing))
          | inr (sel, last) ↦ (
            missing_outcome fl r role job_id topology payload call name latency a sel,
            rw (found, count, e, last) refl,
            inr (a.failed, refl, t.refused, t.distinct, full),
          )
        ]
      ]
