-- ===== src/Orchestration/Graph/Validation.antt =====
-- What `WorkflowGraph.__post_init__` of app/orchestration/graph.py accepts.
use signal_count.Base.{
  String, ◌≡◌, refl, ◌↔◌, List, [], ◌∷◌, length, arith, is_mem-to_set, to_set, to_set-IsDistinct,
  nat_beq, nat_beq_iff, IsDistinct, string_eq,
}
use signal_count.Base.Outcome.{ok, guard, ◌>>◌, >>-eq-ok, guard-eq-ok}
use signal_count.Orchestration.Graph.{
  WorkflowGraph, node_ids, check_edges, post_init, assert_acyclic, duplicate_ids,
}
use signal_count.Orchestration.Graph.Kahn.Counts.{IsKnown}
use signal_count.Orchestration.Graph.Kahn.Walks.{Walk}
use signal_count.Orchestration.Graph.Kahn.Correct.{assert_acyclic_iff}

check_edges_iff :
    (ids : List String) (es : List (String × String))
    → (check_edges (to_set ids) es ≡ ok tt) ↔ IsKnown ids es
unfolding check_edges
check_edges_iff ids [] = (λ _. tt, λ _. refl)
check_edges_iff ids ((s, t) ∷ es) =
    ground (arith, check_edges_iff ids es, is_mem-to_set s ids, is_mem-to_set t ids)

-- The constructor accepts exactly the graphs that have distinct node ids, edges between known
-- nodes, and no closed walk.
pub post_init_iff :
    (g : WorkflowGraph)
    → (post_init g ≡ ok tt) ↔ (
        IsDistinct (node_ids g)
        × IsKnown (node_ids g) g.edges
        × ((v : String) → ¬ Walk g.edges v v))
unfolding post_init
post_init_iff g =
    let ids = node_ids g in
    let len = nat_beq (length (to_set ids)) (length ids) in
    let edges = check_edges (to_set ids) g.edges in
    let order = assert_acyclic ids g.edges in
    let whole = >>-eq-ok (guard len duplicate_ids) (edges >> order) tt in
    let later = >>-eq-ok edges order tt in
    let distinct = to_set-IsDistinct ids in
    let sizes = nat_beq_iff (length (to_set ids)) (length ids) in
    (
      λ h.
          let (a, rest) = whole.0 h in
          let (b, c) = later.0 rest in
          let d = distinct.0 (sizes.0 ((guard-eq-ok len duplicate_ids).0 a)) in
          let k = (check_edges_iff ids g.edges).0 b in
          (d, k, (assert_acyclic_iff ids g.edges k d).0 c),
      λ (d, k, none). whole.1 (
        (guard-eq-ok len duplicate_ids).1 (sizes.1 (distinct.1 d)),
        later.1 ((check_edges_iff ids g.edges).1 k, (assert_acyclic_iff ids g.edges k d).1 none),
      ),
    )
