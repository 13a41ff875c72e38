-- ===== src/Examples/Dispatch.antt =====
-- Transports to test `_dispatch_role` of app/coordinator/service.py with.
use signal_count.Base.{
  ℕ, String, ◌≡◌, refl, none, List, [], ◌∷◌, string_eq, ◌==◌, if◌then◌else◌, arith, IsDistinct,
}
use signal_count.Base.Outcome.{Outcome, ok, err}
use signal_count.Base.Json.{end}
use signal_count.Schemas.{SpecialistResponse}
use signal_count.Axl.Registry.{PeerService, AxlRegistry, get_candidates_for_role}
use signal_count.Axl.Capability.{
  list_candidates, select_for_role, topology_peer_ids, candidate_health, rank_lt, first_max,
  selection_reason, health_rank, peer_reputation_score,
}
use signal_count.Coordinator.Dispatch.{
  responded, timed_out, raised, Payload, build_payload, Transport, RoleDispatchOutcome,
  DispatchError, out_of_fuel, attempt, context_mismatches, audit_attempts, dispatch_role,
}
use signal_count.Coordinator.Dispatch.Progress.{attempt_context, peer_ids}
use signal_count.Coordinator.Dispatch.Ends.{Explained, dispatch_role_ends}
use signal_count.Coordinator.Dispatch.Duplicates.{dispatch_role_diverges}
use signal_count.Examples.Floats.{sample_floats}
use signal_count.Examples.Peers.{peer, two_peers, two_peers_found}

abbrev sample_payload : Payload
sample_payload =
    build_payload "risk" "j1" (record { thesis = "up"; asset = "ETH"; horizon_days = 30 }) end []

abbrev pub sample_response : SpecialistResponse ℕ
sample_response = record {
  job_id = "j1";
  node_role = "risk";
  peer_id = "b";
  summary = "calm";
  scenario_view = record { bull = 1; base = 2; bear = 3 };
  signals = [];
  risks = [];
  confidence = 1;
  citations = [];
  timestamp = "t";
  agent_wallet = none;
  ree_receipt_hash = none;
  receipt_status = none;
  ree_prompt_hash = none;
  ree_tokens_hash = none;
  ree_model_name = none;
  ree_receipt_body = none;
  ree_receipt_path = none;
}

-- Only the peer "b" responds.
abbrev pub only_b : Transport ℕ
only_b n p s load = if p == "b" then responded sample_response else timed_out

abbrev silent : Transport ℕ
silent n p s load = raised

abbrev doubled : AxlRegistry
doubled = record {
  services = ("risk", peer "a") ∷ [];
  candidates = ("risk", peer "a" ∷ peer "a" ∷ []) ∷ [];
}

abbrev attempted : Outcome DispatchError (RoleDispatchOutcome ℕ) → List String
attempted (ok o) = o.execution_record.attempted_peer_ids
attempted (err e) = []

falls_back :
    attempted
      (dispatch_role sample_floats two_peers "risk" "j1" none sample_payload only_b 2 "live" 7)
    ≡ "a" ∷ "b" ∷ []
unfolding dispatch_role select_for_role list_candidates get_candidates_for_role topology_peer_ids
    candidate_health rank_lt first_max selection_reason context_mismatches audit_attempts
    health_rank peer_reputation_score
falls_back = refl

answers :
    attempt sample_floats two_peers "risk" "j1" none sample_payload only_b 1 (peer "b")
    ≡ ok sample_response
unfolding attempt context_mismatches
answers = refl

attempt_context_example :
    (sample_response.job_id ≡ "j1")
    × (sample_response.node_role ≡ "risk")
    × (sample_response.peer_id ≡ "b")
attempt_context_example =
    attempt_context sample_floats two_peers "risk" "j1" none sample_payload only_b 1 (peer "b")
      sample_response answers

dispatch_role_ends_example :
    (o : RoleDispatchOutcome ℕ) × (dispatch_role sample_floats two_peers "risk" "j1" none
        sample_payload only_b 2 "live" 7
      ≡ ok o)
    × Explained sample_floats two_peers "risk" "j1" none sample_payload only_b
        (peer "a")
        (peer "b" ∷ [])
        two_peers_found
        (refl, (refl, tt))
        o
dispatch_role_ends_example =
    dispatch_role_ends sample_floats two_peers "risk" "j1" none sample_payload only_b (peer "a")
      (peer "b" ∷ []) two_peers_found (refl, (refl, tt)) 2 "live" 7 (omega arith)

doubled_found : get_candidates_for_role doubled "risk" ≡ ok (peer "a" ∷ peer "a" ∷ [])
unfolding get_candidates_for_role
doubled_found = refl

doubled-not_IsDistinct : ¬ IsDistinct (peer_ids (peer "a" ∷ peer "a" ∷ []))
doubled-not_IsDistinct d = let (here, later) = d in cc

refuses :
    (n : ℕ) (p : PeerService)
    → (status : String) × (attempt sample_floats doubled "risk" "j1" none sample_payload silent n p
        ≡ err status)
unfolding attempt context_mismatches
refuses n p = ("error", refl)

dispatch_role_diverges_example :
    dispatch_role sample_floats doubled "risk" "j1" none sample_payload silent 9 "live" 7
    ≡ err out_of_fuel
dispatch_role_diverges_example =
    dispatch_role_diverges sample_floats doubled "risk" "j1" none sample_payload silent (peer "a")
      (peer "a" ∷ []) doubled_found doubled-not_IsDistinct refuses 9 "live" 7
