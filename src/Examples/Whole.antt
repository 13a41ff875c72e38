-- ===== src/Examples/Whole.antt =====
-- A whole dispatch to test app/coordinator/service.py and app/nodes/verifier/service.py with.
use signal_count.Base.{false, ℕ, ◌≡◌, ◌⊎◌, refl, some, [], ◌∷◌}
use signal_count.Base.Json.{null, end}
use signal_count.Base.Outcome.{Outcome, ok, err}
use signal_count.Schemas.{ThesisRequest}
use signal_count.Orchestration.Graph.{
  WorkflowGraph, specialist, verifier, coordinator, post_init, specialist_roles, assert_acyclic,
}
use signal_count.Orchestration.Plan.{ExecutionPlan, single_node_id, build_plan}
use signal_count.Coordinator.Run.{DispatchResult, task_of}
use signal_count.Coordinator.Run.Whole.{RunError, verifying}
use signal_count.Coordinator.Run.Whole.Ends.{HasCandidates}
use signal_count.Coordinator.Run.Whole.Accepted.{IsAccounted}
use signal_count.Nodes.Policy.{VerifierError}
use signal_count.Nodes.Verifier.Accepting.{Acceptable}
use signal_count.Nodes.Verifier.Dispatched.{verified_dispatch, verified_dispatch-accepts}
use signal_count.Examples.Floats.{sample_floats}
use signal_count.Examples.Signing.{crypto, no_receipts}
use signal_count.Examples.Peers.{peer, two_peers, two_peers_found}
use signal_count.Examples.Dispatch.{only_b}
use signal_count.Examples.Verifier.{hundredths, service}

abbrev only_risk : ExecutionPlan
only_risk = record {
  specialist_roles = "risk" ∷ [];
  verifier_node_id = some "verifier";
  synthesis_node_id = some "synthesis";
}

-- A graph of one specialist.
abbrev small_graph : WorkflowGraph
small_graph = record {
  nodes =
      record { id = "risk"; node_type = specialist; optional = false }
      ∷ record { id = "verifier"; node_type = verifier; optional = false }
      ∷ record { id = "synthesis"; node_type = coordinator; optional = false }
      ∷ [];
  edges = ("risk", "verifier") ∷ ("verifier", "synthesis") ∷ [];
}

small_accepted : post_init small_graph ≡ ok tt
unfolding post_init assert_acyclic
small_accepted = refl

small_planned : build_plan small_graph ≡ ok only_risk
unfolding build_plan single_node_id specialist_roles
small_planned = refl

abbrev request : ThesisRequest
request = record { thesis = "up"; asset = "ETH"; horizon_days = 30 }

abbrev outcome : Outcome (RunError VerifierError) (DispatchResult ℕ)
outcome =
    verified_dispatch sample_floats hundredths crypto no_receipts (λ a. null) service two_peers "j1"
      request end end [] (λ role. only_b) (λ j. "live-axl") (λ role. 7) small_graph only_risk

abbrev Accounted : DispatchResult ℕ → Type 0
Accounted result =
    IsAccounted
      (Acceptable sample_floats hundredths crypto no_receipts (λ a. null) service
        (task_of "j1" request))
      ("risk" ∷ []) result

has_candidates : HasCandidates two_peers "risk"
has_candidates = (peer "a", peer "b" ∷ [], two_peers_found, (refl, (refl, tt)))

verified_dispatch-accepts_example :
    ((e : VerifierError) × (outcome ≡ err (verifying e)))
    ⊎ ((result : DispatchResult ℕ) × (outcome ≡ ok result) × Accounted result)
verified_dispatch-accepts_example =
    verified_dispatch-accepts sample_floats hundredths crypto no_receipts (λ a. null) service
      two_peers "j1" request end end [] (λ role. only_b) (λ j. "live-axl") (λ role. 7) small_graph
      only_risk small_accepted small_planned refl (has_candidates, tt)
