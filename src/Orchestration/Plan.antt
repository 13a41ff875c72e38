-- ===== src/Orchestration/Plan.antt =====
-- The bounded execution plan of a graph (app/orchestration/executor.py).
pub mod Roles
use signal_count.Base.{String, Option, none, some, List, [], ◌∷◌, map, select}
use signal_count.Base.Json.{Fields, end, field, texts, text_or_null}
use signal_count.Base.Outcome.{Outcome, ok, err, ◌>>=◌}
use signal_count.Orchestration.Graph.{
  NodeType, verifier, coordinator, type_eq, WorkflowGraph, specialist_roles,
}

pub record ExecutionPlan : Type 0 where
  pub specialist_roles : List String
  pub verifier_node_id : Option String
  pub synthesis_node_id : Option String

pub data PlanError : Type 0 where
  multiple_nodes : NodeType → PlanError

abbrev only_node : NodeType → List String → Outcome PlanError (Option String)
only_node t [] = ok none
only_node t (id ∷ []) = ok (some id)
only_node t (id ∷ other ∷ ids) = err (multiple_nodes t)

-- `_single_node_id`
unfoldable pub single_node_id : WorkflowGraph → NodeType → Outcome PlanError (Option String)
single_node_id g t = only_node t (map (λ n. n.id) (select (λ n. type_eq n.node_type t) g.nodes))

-- `GraphExecutor.build_plan`
unfoldable pub build_plan : WorkflowGraph → Outcome PlanError ExecutionPlan
unfolding single_node_id
build_plan g = do
  verifier_node_id ← single_node_id g verifier
  synthesis_node_id ← single_node_id g coordinator
  ok (record {
    specialist_roles = specialist_roles g;
    verifier_node_id = verifier_node_id;
    synthesis_node_id = synthesis_node_id;
  })

-- `ExecutionPlan.to_dict`
unfoldable pub plan_dict : ExecutionPlan → Fields
plan_dict plan = field "specialist_roles" (texts plan.specialist_roles) (
    field "verifier_node_id" (text_or_null plan.verifier_node_id)
      (field "synthesis_node_id" (text_or_null plan.synthesis_node_id) end))
