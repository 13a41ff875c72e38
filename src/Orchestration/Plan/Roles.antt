-- ===== src/Orchestration/Plan/Roles.antt =====
-- The roles of the execution plan of a valid graph (app/orchestration/executor.py and graph.py).
use signal_count.Base.{
  String, ◌≡◌, ap, sym, subst, inl, inr, Bool, false, List, [], ◌∷◌, map, select, is_mem,
  IsDistinct, string_eq, Bool-cases, arith,
}
use signal_count.Base.Outcome.{ok, >>=-ok, ok_inj}
use signal_count.Orchestration.Graph.{
  specialist, verifier, coordinator, type_eq, WorkflowGraph, specialist_roles, post_init,
}
use signal_count.Orchestration.Graph.Validation.{post_init_iff}
use signal_count.Orchestration.Plan.{ExecutionPlan, single_node_id, build_plan}

module _ {A : Type 0} (f : A → String) (test : A → Bool) where
  not_selected :
      (a : String) (xs : List A)
      → is_mem a (map f xs) ≡ false
      → is_mem a (map f (select test xs)) ≡ false
  not_selected a [] h = h
  not_selected a (x ∷ xs) h = ground (arith, not_selected a xs)

  select-IsDistinct : (xs : List A) → IsDistinct (map f xs) → IsDistinct (map f (select test xs))
  select-IsDistinct [] distinct = tt
  select-IsDistinct (x ∷ xs) (alone, distinct) = elim (Bool-cases (test x)) [
    | inl taken ↦ rw taken (not_selected (f x) xs alone, select-IsDistinct xs distinct)
    | inr left ↦ rw left (select-IsDistinct xs distinct)
  ]

-- The plan of a graph that its constructor accepts names each role once.
pub build_plan-IsDistinct :
    (g : WorkflowGraph) {plan : ExecutionPlan}
    → post_init g ≡ ok tt
    → build_plan g ≡ ok plan
    → IsDistinct plan.specialist_roles
unfolding build_plan specialist_roles
build_plan-IsDistinct g accepted made =
    let (v, of_verifier, rest) = >>=-ok (single_node_id g verifier) _ made in
    let (c, of_coordinator, last) = >>=-ok (single_node_id g coordinator) _ rest in
    subst IsDistinct (ap (λ p. p.specialist_roles) (ok_inj last)) (
      select-IsDistinct (λ n. n.id) (λ n. type_eq n.node_type specialist) g.nodes
        ((post_init_iff g).0 accepted).0)

-- The roles of a plan are the specialists of its graph.
pub build_plan-roles :
    (g : WorkflowGraph) {plan : ExecutionPlan}
    → build_plan g ≡ ok plan
    → plan.specialist_roles ≡ specialist_roles g
unfolding build_plan
build_plan-roles g made =
    let (v, of_verifier, rest) = >>=-ok (single_node_id g verifier) _ made in
    let (c, of_coordinator, last) = >>=-ok (single_node_id g coordinator) _ rest in
    ap (λ p. p.specialist_roles) (sym (ok_inj last))
