-- ===== src/Coordinator/Run/Whole/Ends.antt =====
-- How the roles' dispatches of app/coordinator/service.py end, and whom their answers are for.
use signal_count.Base.{
  ℕ, ◌≤◌, String, ◌≡◌, refl, ap, ◌∙◌, sym, subst, inl, inr, Option, none, some, List, [], ◌∷◌, All,
  length, IsDistinct, string_eq, arith,
}
use signal_count.Base.Json.{Json, Fields}
use signal_count.Base.Outcome.{ok, err, Ensures, ok-Ensures, >>=-Ensures}
use signal_count.Base.Floats.{Floats}
use signal_count.Schemas.{ThesisRequest, SpecialistResponse}
use signal_count.Axl.Registry.{PeerService, AxlRegistry, get_candidates_for_role}
use signal_count.Axl.Capability.{PeerSelection, list_candidates}
use signal_count.Coordinator.Dispatch.{
  Transport, Payload, no_peer_candidates, RoleDispatchOutcome, LoopEnd, completed, exhausted,
  as_dispatch, loop, start, report, transport_name, missing_outcome, dispatch_role, build_payload,
}
use signal_count.Coordinator.Dispatch.Progress.{peer_ids, attempt_context}
use signal_count.Coordinator.Dispatch.Ends.{dispatch_role_ends, Explained}
use signal_count.Coordinator.Run.Settled.{IsRoleOutcome, AreOutcomes, names}
use signal_count.Coordinator.Run.Whole.{run_mode_of, count_of, rounds_for, dispatch_one, gather}

-- A role with candidates, of distinct peer ids.
abbrev pub HasCandidates : AxlRegistry → String → Type 0
HasCandidates r role =
    (s : PeerService) × (ss : List PeerService) × (get_candidates_for_role r role ≡ ok (s ∷ ss))
    × IsDistinct (peer_ids (s ∷ ss))

module _ (fl : Floats) (r : AxlRegistry) (role job_id : String) (topology : Option Fields)
    (payload : Payload) (call : Transport (fl.Float)) where
  open fl use {Float}

  abbrev OfRole : RoleDispatchOutcome Float → Type 0
  OfRole o = o.execution_record.node_role ≡ role

  -- Whatever ends the loop is recorded under the role.
  report-OfRole :
      (transport : String) (latency : Float) (end : LoopEnd Float)
      → Ensures OfRole (report fl r role job_id topology payload call transport latency end)
  report-OfRole transport latency (completed response sel attempted) = ok-Ensures OfRole _ refl
  report-OfRole transport latency (exhausted a) = by_selection a.last_selection
    where
      by_selection :
          (o : Option (PeerSelection Float))
          → Ensures OfRole (elim o [
            | none ↦ err no_peer_candidates
            | some sel ↦
                ok (missing_outcome fl r role job_id topology payload call transport latency a sel)
          ])
      by_selection none = λ x same. cc
      by_selection (some sel) = ok-Ensures OfRole _ refl

  pub dispatch_role-OfRole :
      (fuel : ℕ) (run_mode : String) (latency : Float)
      → Ensures OfRole (dispatch_role fl r role job_id topology payload call fuel run_mode latency)
  unfolding dispatch_role
  dispatch_role-OfRole fuel run_mode latency =
      >>=-Ensures OfRole
        (as_dispatch fl r role job_id topology payload call
          (list_candidates fl r role topology [] []))
        _
        (λ candidates listed.
          >>=-Ensures OfRole
            (loop fl r role job_id topology payload call fuel (length candidates)
              (start fl r role job_id topology payload call))
            _
            (λ end ended.
              report-OfRole (transport_name fl r role job_id topology payload call run_mode) latency
                end))

module _ (fl : Floats) (r : AxlRegistry) (job_id : String) (request : ThesisRequest)
    (topology market : Fields) (news : List String) (call : String → Transport fl.Float)
    (shown : Json → String) (latency : String → fl.Float) where
  open fl use {Float}

  -- A response is for the role and the job.
  abbrev pub IsAnswer : String → RoleDispatchOutcome Float → Type 0
  IsAnswer role o =
      (response : SpecialistResponse Float)
      → o.response ≡ some response
      → (response.node_role ≡ role) × (response.job_id ≡ job_id)

  abbrev pub AreAnswers : List (String × RoleDispatchOutcome Float) → Type 0
  AreAnswers results = All (λ p. IsAnswer p.0 p.1) results

  abbrev Ended : String → RoleDispatchOutcome Float → Type 0
  Ended role o = IsRoleOutcome role o × IsAnswer role o

  Explained-Ended :
      (role : String) (s : PeerService) (ss : List PeerService)
      (found : get_candidates_for_role r role ≡ ok (s ∷ ss))
      (unique : IsDistinct (peer_ids (s ∷ ss))) (o : RoleDispatchOutcome Float)
      → o.execution_record.node_role ≡ role
      → Explained fl r role job_id
          (some topology)
          (build_payload role job_id request market news)
          (call role)
          s
          ss
          found
          unique
          o
      → Ended role o
  Explained-Ended role s ss found unique o of_role
        (inl (response, service, earlier, given, peer, status, answer)) =
      let (of_job, for_role, of_peer) =
        attempt_context fl r role job_id (some topology)
          (build_payload role job_id request market news) (call role) (length earlier) service
          response answer.3 in
      (
        (of_role, inr (response, given, status)),
        λ other same.
            subst (λ x. (x.node_role ≡ role) × (x.job_id ≡ job_id)) (some_inj (sym given ∙ same))
              (for_role, of_job),
      )
    where
      some_inj : {x y : SpecialistResponse Float} → some x ≡ some y → x ≡ y
      some_inj h = cc
  Explained-Ended role s ss found unique o of_role (inr (all, nothing, refused, distinct, count)) =
      ((of_role, inl nothing), λ other same. cc)

  dispatch_one_ends :
      (role : String)
      → HasCandidates r role
      → (o : RoleDispatchOutcome Float) × (dispatch_one fl r job_id request topology market news
            call shown latency role
          ≡ ok o)
        × Ended role o
  unfolding dispatch_one
  dispatch_one_ends role (s, ss, found, unique) =
      let payload = build_payload role job_id request market news in
      let mode = run_mode_of shown topology in
      let enough : length (s ∷ ss) ≤ rounds_for r role =
        subst (λ o. length (s ∷ ss) ≤ count_of o) (sym found) (omega arith) in
      let (o, made, explained) =
        dispatch_role_ends fl r role job_id (some topology) payload (call role) s ss found unique
          (rounds_for r role) mode (latency role) enough in
      let of_role =
        dispatch_role-OfRole fl r role job_id (some topology) payload (call role)
          (rounds_for r role) mode (latency role) o made in
      (o, made, Explained-Ended role s ss found unique o of_role explained)

  -- The dispatches of all roles end, when each role has candidates of distinct peer ids: with a result
  -- for each role, whose response is for the role and is recorded as completed.
  pub gather_ends :
      (roles : List String)
      → All (HasCandidates r) roles
      → (results : List (String × RoleDispatchOutcome Float)) × (gather fl r job_id request topology
            market news call shown latency roles
          ≡ ok results)
        × (names results ≡ roles)
        × AreOutcomes results
        × AreAnswers results
  unfolding gather
  gather_ends [] h = ([], refl, refl, tt, tt)
  gather_ends (role ∷ roles) (here, more) =
      let (o, made, (outcome, answer)) = dispatch_one_ends role here in
      let (rest, gathered, same, outcomes, answers) = gather_ends roles more in
      (
        (role, o) ∷ rest,
        rw (made, gathered) refl,
        ap (λ ns. role ∷ ns) same,
        (outcome, outcomes),
        (answer, answers),
      )
