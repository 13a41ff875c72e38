-- ===== src/Orchestration/State.antt =====
-- The state of a graph's nodes after a run (app/orchestration/state.py).
use signal_count.Base.{String, Bool, List, map, is_mem, string_eq, if◌then◌else◌}
use signal_count.Base.Json.{bool, str, arr, obj, Fields, end, field, items_of}
use signal_count.Orchestration.Graph.{
  NodeType, specialist, verifier, coordinator, type_text, edge_items, GraphNode, WorkflowGraph,
}

pub record GraphNodeState : Type 0 where
  pub id : String
  pub node_type : NodeType
  pub status : String
  pub optional : Bool

pub record GraphState : Type 0 where
  pub nodes : List GraphNodeState
  pub edges : List (String × String)

-- `_specialist_status`; the sets are read for membership alone.
unfoldable pub specialist_status : String → (completed missing rejected : List String) → String
specialist_status role completed missing rejected =
    if is_mem role rejected
    then "rejected"
    else if is_mem role missing
    then "missing"
    else if is_mem role completed
    then "completed"
    else "pending"

abbrev pub node_status :
    (completed missing rejected : List String) (verifier_ran synthesis_ran : Bool)
    → GraphNode
    → String
node_status completed missing rejected verifier_ran synthesis_ran n = elim n.node_type [
  | specialist ↦ specialist_status n.id completed missing rejected
  | verifier ↦ if verifier_ran then "completed" else "skipped"
  | coordinator ↦ if synthesis_ran then "completed" else "pending"
]

abbrev pub node_state :
    (completed missing rejected : List String) (verifier_ran synthesis_ran : Bool)
    → GraphNode
    → GraphNodeState
node_state completed missing rejected verifier_ran synthesis_ran n = record {
  id = n.id;
  node_type = n.node_type;
  status = node_status completed missing rejected verifier_ran synthesis_ran n;
  optional = n.optional;
}

unfoldable pub build_graph_state :
    WorkflowGraph
    → (completed missing rejected : List String) (verifier_ran synthesis_ran : Bool) → GraphState
unfolding specialist_status
build_graph_state g completed missing rejected verifier_ran synthesis_ran = record {
  nodes = map (node_state completed missing rejected verifier_ran synthesis_ran) g.nodes;
  edges = g.edges;
}

-- `GraphState.to_dict`
unfoldable pub state_dict : GraphState → Fields
state_dict s =
    field "nodes"
      (arr (
        items_of (
          map
            (λ n. obj (
              field "id" (str n.id) (
                field "type" (str (type_text n.node_type))
                  (field "status" (str n.status) (field "optional" (bool n.optional) end)))))
            s.nodes)))
      (field "edges" (edge_items s.edges) end)
