-- ===== src/Orchestration/Graph.antt =====
-- Workflow graph declarations and their validation (app/orchestration/graph.py).
pub mod Kahn
pub mod Validation
pub use Kahn.{GraphError, duplicate_ids, unknown_node, key_error, cyclic, out_of_fuel}
unfoldable pub use Kahn.{assert_acyclic}
use signal_count.Base.{
  String, Bool, true, false, ◌&&◌, List, [], ◌∷◌, map, length, nat_beq, is_mem, to_set, select,
  string_eq,
}
use signal_count.Base.Json.{Json, bool, str, arr, obj, Fields, end, field, items_of, texts}
use signal_count.Base.Outcome.{Outcome, ok, err, ◌>>=◌, ◌>>◌, guard}

pub data NodeType : Type 0 where
  specialist verifier coordinator : NodeType

-- `node.type == other`
abbrev pub type_eq : NodeType → NodeType → Bool
type_eq specialist specialist = true
type_eq verifier verifier = true
type_eq coordinator coordinator = true
type_eq _ _ = false

pub record GraphNode : Type 0 where
  pub id : String
  pub node_type : NodeType
  pub optional : Bool

pub record WorkflowGraph : Type 0 where
  pub nodes : List GraphNode
  pub edges : List (String × String)

abbrev pub node_ids : WorkflowGraph → List String
node_ids g = map (λ n. n.id) g.nodes

-- `for source, target in self.edges`: the first unknown end raises.
check_edges : List String → List (String × String) → Outcome GraphError (Unit {0})
check_edges known [] = ok tt
check_edges known ((source, target) ∷ es) = do
  guard (is_mem source known && is_mem target known) unknown_node
  check_edges known es

-- `__post_init__`: what the constructor raises.
unfoldable pub post_init : WorkflowGraph → Outcome GraphError (Unit {0})
unfolding check_edges
post_init g = do
  guard (nat_beq (length (to_set (node_ids g))) (length (node_ids g))) duplicate_ids
  check_edges (to_set (node_ids g)) g.edges
  assert_acyclic (node_ids g) g.edges

-- `WorkflowGraph(nodes=..., edges=...)`
pub make_graph : List GraphNode → List (String × String) → Outcome GraphError WorkflowGraph
unfolding post_init
make_graph nodes edges = do
  let g : WorkflowGraph = record { nodes = nodes; edges = edges }
  post_init g
  ok g

unfoldable pub specialist_roles : WorkflowGraph → List String
specialist_roles g = map (λ n. n.id) (select (λ n. type_eq n.node_type specialist) g.nodes)

abbrev pub default_nodes : List GraphNode
default_nodes =
    record { id = "regime"; node_type = specialist; optional = false }
    ∷ record { id = "narrative"; node_type = specialist; optional = false }
    ∷ record { id = "risk"; node_type = specialist; optional = false }
    ∷ record { id = "verifier"; node_type = verifier; optional = false }
    ∷ record { id = "synthesis"; node_type = coordinator; optional = false }
    ∷ []

abbrev pub default_edges : List (String × String)
default_edges =
    ("regime", "verifier")
    ∷ ("narrative", "verifier")
    ∷ ("risk", "verifier")
    ∷ ("verifier", "synthesis")
    ∷ []

-- `DEFAULT_WORKFLOW_GRAPH`
abbrev pub default_graph : WorkflowGraph
default_graph = record { nodes = default_nodes; edges = default_edges }

abbrev pub type_text : NodeType → String
type_text specialist = "specialist"
type_text verifier = "verifier"
type_text coordinator = "coordinator"

-- `[list(edge) for edge in self.edges]`
abbrev pub edge_items : List (String × String) → Json
edge_items edges = arr (items_of (map (λ e. texts (e.0 ∷ e.1 ∷ [])) edges))

-- `WorkflowGraph.to_dict`
unfoldable pub graph_dict : WorkflowGraph → Fields
graph_dict g =
    field "nodes"
      (arr (
        items_of (
          map
            (λ n. obj (
              field "id" (str n.id) (
                field "type" (str (type_text n.node_type))
                  (field "optional" (bool n.optional) end))))
            g.nodes)))
      (field "edges" (edge_items g.edges) end)
