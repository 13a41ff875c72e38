-- ===== src/Examples/Graph.antt =====
-- Workflow graphs to test app/orchestration/graph.py with.
use signal_count.Base.{ℕ, String, ◌≡◌, ◌⊎◌, ◌↔◌, refl, List, [], ◌∷◌, nat_eq, string_eq, IsDistinct}
use signal_count.Base.Outcome.{ok, err}
use signal_count.Orchestration.Graph.{
  cyclic, assert_acyclic, node_ids, post_init, default_graph, specialist_roles,
}
use signal_count.Orchestration.Graph.Kahn.Counts.{IsKnown, IsRanked}
use signal_count.Orchestration.Graph.Kahn.Walks.{Walk}
use signal_count.Orchestration.Graph.Kahn.Correct.{assert_acyclic_decides}
use signal_count.Orchestration.Graph.Validation.{post_init_iff}

abbrev ring : List (ℕ × ℕ)
ring = (1, 2) ∷ (2, 3) ∷ (3, 2) ∷ []

abbrev triangle : List ℕ
triangle = 1 ∷ 2 ∷ 3 ∷ []

ring_rejected : assert_acyclic triangle ring ≡ err cyclic
unfolding assert_acyclic
ring_rejected = refl

default_accepted : post_init default_graph ≡ ok tt
unfolding post_init assert_acyclic
default_accepted = refl

default_roles : specialist_roles default_graph ≡ "regime" ∷ "narrative" ∷ "risk" ∷ []
unfolding specialist_roles
default_roles = refl

assert_acyclic_decides_example :
    ((assert_acyclic triangle ring ≡ ok tt) × ((rank : ℕ → ℕ) × IsRanked rank ring))
    ⊎ ((assert_acyclic triangle ring ≡ err cyclic) × ((v : ℕ) × Walk ring v v))
assert_acyclic_decides_example =
    assert_acyclic_decides triangle ring (refl, refl, (refl, refl, (refl, refl, tt)))
      (refl, (refl, (refl, tt)))

post_init_iff_example : (post_init default_graph ≡ ok tt) ↔ (
    IsDistinct (node_ids default_graph)
    × IsKnown (node_ids default_graph) default_graph.edges
    × ((v : String) → ¬ Walk default_graph.edges v v))
post_init_iff_example = post_init_iff default_graph
