-- ===== src/Coordinator/Dispatch.antt =====
-- One role's dispatch with fallback from peer to peer (`_dispatch_role` and its helpers,
-- app/coordinator/service.py).
pub mod Progress
pub mod Ends
pub mod Duplicates
use signal_count.Base.{
  ℕ, zero, suc, String, Bool, true, false, not, Option, none, some, List, [], ◌∷◌, ◌++◌, length,
  is_mem, ltb, ◌==◌, string_eq, if◌then◌else◌,
}
use signal_count.Base.Outcome.{Outcome, ok, err, ◌>>=◌}
use signal_count.Base.Text.{fstring, join, is_empty}
use signal_count.Base.Floats.{Floats}
use signal_count.Base.Json.{Fields}
use signal_count.Schemas.{ThesisRequest, SpecialistResponse}
use signal_count.Axl.Registry.{RegistryError, unknown_role, no_candidate, PeerService, AxlRegistry}
use signal_count.Axl.Capability.{PeerSelection, list_candidates, select_for_role}

-- What the transport does: a response, a `TimeoutError`, or any other exception.
pub data Reply (F : Type 0) : Type 0 where
  responded : SpecialistResponse F → Reply F
  timed_out raised : Reply F

pub record Payload : Type 0 where
  pub job_id : String
  pub role : String
  pub request : ThesisRequest
  pub snapshot : Option Fields
  pub headlines : Option (List String)

-- `_build_payload`: the optional key that each role adds.
pub build_payload : String → String → ThesisRequest → Fields → List String → Payload
build_payload role job_id request market news = record {
  job_id = job_id;
  role = role;
  request = request;
  snapshot = if role == "regime" then some market else none;
  headlines = if role == "regime" then none else if role == "narrative" then some news else none;
}

-- A call of `dispatch_specialist`, by the number of calls that this role has made before.
abbrev pub Transport : Type 0 → Type 0
Transport F = ℕ → (peer_id service_name : String) → Payload → Reply F

-- `NodeExecutionRecord` of app/observability/provenance.py, without its defaults.
pub record ExecutionRecord (F : Type 0) : Type 0 where
  pub node_role : String
  pub peer_id : String
  pub status : String
  pub latency_ms : F
  pub service_name : String
  pub transport : String
  pub dispatch_target : String
  pub selection_reason : String
  pub attempted_peer_ids : List String

pub record RoleDispatchOutcome (F : Type 0) : Type 0 where
  pub response : Option (SpecialistResponse F)
  pub execution_record : ExecutionRecord F

-- `ids.add(peer_id)`
abbrev pub set_add : String → List String → List String
set_add x xs = if is_mem x xs then xs else xs ++ x ∷ []

abbrev mismatch : String → String → String → List String
mismatch name expected observed = if observed == expected then [] else name ∷ []

-- The mismatches of `_validate_response_context`; it raises unless there is none.
unfoldable pub context_mismatches :
    {F : Type 0} → SpecialistResponse F → String → String → String → List String
context_mismatches response job_id role peer_id =
    mismatch "job_id" job_id response.job_id
    ++ (mismatch "node_role" role response.node_role ++ mismatch "peer_id" peer_id response.peer_id)

abbrev pub is_nil : List String → Bool
is_nil [] = true
is_nil (x ∷ xs) = false

abbrev but_last : List String → List String
but_last [] = []
but_last (x ∷ []) = []
but_last (x ∷ y ∷ ys) = x ∷ but_last (y ∷ ys)

-- `_fallback_reason`
pub fallback_reason : String → List String → Bool → String
fallback_reason reason attempted exhausted =
    let earlier = but_last attempted in
    let from =
      if is_nil earlier then [] else fstring ("fallback_from=" ∷ join "," earlier ∷ []) ∷ [] in
    let all =
      if exhausted
      then if ltb 1 (length attempted)
        then fstring ("attempts_exhausted=" ∷ join "," attempted ∷ []) ∷ []
        else []
      else [] in
    let suffixes = from ++ all in
    if is_nil suffixes then reason else fstring (reason ∷ "; " ∷ join "; " suffixes ∷ [])

-- `_audit_attempts`
unfoldable pub audit_attempts : List String → List String
audit_attempts attempted = if ltb 1 (length attempted) then attempted else []

abbrev pub dispatch_target : PeerService → String
dispatch_target s = fstring ("/mcp/" ∷ s.peer_id ∷ "/" ∷ s.service_name ∷ [])

-- What ends a dispatch other than an outcome: the registry's errors, the `ValueError` of no
-- candidate, or, in the model alone, the end of the fuel.
pub data DispatchError : Type 0 where
  registry : RegistryError → DispatchError
  no_peer_candidates out_of_fuel : DispatchError

-- The variables of the `while` loop.
pub record Attempts (F : Type 0) : Type 0 where
  pub failed : List String
  pub attempted : List String
  pub last_selection : Option (PeerSelection F)
  pub last_status : String

-- How the loop ends: with a response that a selected peer gave, or with every candidate tried.
pub data LoopEnd (F : Type 0) : Type 0 where
  completed : SpecialistResponse F → PeerSelection F → List String → LoopEnd F
  exhausted : Attempts F → LoopEnd F

-- What one round comes to.
pub data Round (F : Type 0) : Type 0 where
  finished : SpecialistResponse F → PeerSelection F → List String → Round F
  again : Attempts F → Round F

module _ (fl : Floats) (r : AxlRegistry) (role job_id : String) (topology : Option Fields)
    (payload : Payload) (call : Transport (fl.Float)) where
  open fl use {Float}

  -- The `try`: a response of the right context, or the status that its handler records.
  abbrev pub handle : String → Reply Float → Outcome String (SpecialistResponse Float)
  handle peer_id (responded response) =
      if is_nil (context_mismatches response job_id role peer_id)
      then ok response
      else err "invalid_response"
  handle peer_id timed_out = err "timed_out"
  handle peer_id raised = err "error"

  unfoldable pub attempt : ℕ → PeerService → Outcome String (SpecialistResponse Float)
  attempt n s = handle s.peer_id (call n s.peer_id s.service_name payload)

  abbrev pub after_failure : Attempts Float → PeerSelection Float → String → Attempts Float
  after_failure a sel status = record {
    failed = set_add sel.service.peer_id a.failed;
    attempted = a.attempted ++ sel.service.peer_id ∷ [];
    last_selection = some sel;
    last_status = status;
  }

  abbrev pub select_next : Attempts Float → Outcome RegistryError (PeerSelection Float)
  select_next a = select_for_role fl r role topology [] a.failed

  -- The loop's body: the selection, the call, and what its handlers record.
  pub round : Attempts Float → Outcome RegistryError (Round Float)
  unfolding attempt
  round a = do
    sel ← select_next a
    ok (elim (attempt (length a.attempted) sel.service) [
      | ok response ↦ finished response sel (a.attempted ++ sel.service.peer_id ∷ [])
      | err status ↦ again (after_failure a sel status)
    ])

  -- `while len(failed_peer_ids) < candidate_count`. Distinct candidates need one round each
  -- (`loop_ends`); with a peer id that stands twice the loop may go on for ever (`Duplicates`).
  pub loop : ℕ → ℕ → Attempts Float → Outcome DispatchError (LoopEnd Float)
  unfolding round
  loop zero count a = if ltb (length a.failed) count then err out_of_fuel else ok (exhausted a)
  loop (suc fuel) count a =
      let next : Outcome DispatchError (LoopEnd Float) = elim (round a) [
        | err e ↦ err (registry e)
        | ok (finished response sel attempted) ↦ ok (completed response sel attempted)
        | ok (again a') ↦ loop fuel count a'
      ] in
      if ltb (length a.failed) count then next else ok (exhausted a)

  abbrev pub start : Attempts Float
  start = record { failed = []; attempted = []; last_selection = none; last_status = "error" }

  abbrev pub record_of :
      PeerSelection Float → String → String → Float → String → List String → ExecutionRecord Float
  record_of sel status transport latency reason attempted = record {
    node_role = role;
    peer_id = sel.service.peer_id;
    status = status;
    latency_ms = latency;
    service_name = sel.service.service_name;
    transport = transport;
    dispatch_target = dispatch_target sel.service;
    selection_reason = reason;
    attempted_peer_ids = audit_attempts attempted;
  }

  abbrev pub completed_outcome :
      String
      → Float
      → SpecialistResponse Float
      → PeerSelection Float
      → List String
      → RoleDispatchOutcome Float
  completed_outcome transport latency response sel attempted = record {
    response = some response;
    execution_record =
        record_of sel "completed" transport latency (fallback_reason sel.reason attempted false)
          attempted;
  }

  abbrev pub missing_outcome :
      String → Float → Attempts Float → PeerSelection Float → RoleDispatchOutcome Float
  missing_outcome transport latency a sel = record {
    response = none;
    execution_record =
        record_of sel a.last_status transport latency (fallback_reason sel.reason a.attempted true)
          a.attempted;
  }

  -- The outcome that the end of the loop is reported as; `latency` is what the clock says then.
  abbrev pub report :
      String → Float → LoopEnd Float → Outcome DispatchError (RoleDispatchOutcome Float)
  report transport latency (completed response sel attempted) =
      ok (completed_outcome transport latency response sel attempted)
  report transport latency (exhausted a) = elim a.last_selection [
    | none ↦ err no_peer_candidates
    | some sel ↦ ok (missing_outcome transport latency a sel)
  ]

  abbrev pub transport_name : String → String
  transport_name run_mode =
      if run_mode == "offline-demo-preview" then "offline-preview" else "axl-mcp"

  abbrev pub as_dispatch : {A : Type 0} → Outcome RegistryError A → Outcome DispatchError A
  as_dispatch (ok a) = ok a
  as_dispatch (err e) = err (registry e)

  -- `_dispatch_role`, with fuel for its loop.
  unfoldable pub dispatch_role :
      ℕ → String → Float → Outcome DispatchError (RoleDispatchOutcome Float)
  unfolding loop
  dispatch_role fuel run_mode latency = do
    candidates ← as_dispatch (list_candidates fl r role topology [] [])
    end ← loop fuel (length candidates) start
    report (transport_name run_mode) latency end
