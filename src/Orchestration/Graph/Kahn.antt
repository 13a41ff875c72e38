-- ===== src/Orchestration/Graph/Kahn.antt =====
-- `_assert_acyclic` of app/orchestration/graph.py: Kahn's algorithm over dicts and a queue.
pub mod Counts
mod Tables
pub mod Walks
mod Loop
pub mod Correct
use signal_count.Base.{
  ℕ, zero, suc, ◌+◌, ◌-◌, Bool, List, [], ◌∷◌, ◌++◌, length, nat_beq, Eq, if◌then◌else◌,
}
use signal_count.Base.Dict.{Dict, lookup, insert, add_keys}
use signal_count.Base.Outcome.{Outcome, ok, err, ◌>>=◌, ◌>>◌, or_raise, guard}

-- What validation raises. `key_error` is the `KeyError` of a missing dict key, and `out_of_fuel`
-- is the model's own: neither happens in a graph whose edges are known.
pub data GraphError : Type 0 where
  duplicate_ids unknown_node key_error cyclic out_of_fuel : GraphError

-- `outgoing` and `indegree`
abbrev pub Tables : Type 0 → Type 0
Tables K = Dict K (List K) × Dict K ℕ

module _ {K : Type 0} ⦃e : Eq K⦄ where
  -- `for source, target in edges`
  pub add_edges : List (K × K) → Tables K → Outcome GraphError (Tables K)
  add_edges [] tables = ok tables
  add_edges ((source, target) ∷ es) (outgoing, indegree) = do
    targets ← or_raise (lookup source outgoing) key_error
    n ← or_raise (lookup target indegree) key_error
    add_edges es (insert source (targets ++ target ∷ []) outgoing, insert target (n + 1) indegree)

  -- `[node_id for node_id in node_ids if indegree[node_id] == 0]`
  pub sources : List K → Dict K ℕ → Outcome GraphError (List K)
  sources [] indegree = ok []
  sources (k ∷ ks) indegree = do
    n ← or_raise (lookup k indegree) key_error
    rest ← sources ks indegree
    ok (if nat_beq n 0 then k ∷ rest else rest)

  -- `for target in outgoing[node_id]`: the new `indegree` and `ready`. A Python count may fall
  -- below zero; `relax_lem` shows that it is at least one here, so that `-` is exact.
  pub relax : List K → Dict K ℕ → List K → Outcome GraphError (Dict K ℕ × List K)
  relax [] indegree ready = ok (indegree, ready)
  relax (target ∷ ts) indegree ready = do
    n ← or_raise (lookup target indegree) key_error
    relax ts (insert target (n - 1) indegree)
        (if nat_beq (n - 1) 0 then ready ++ target ∷ [] else ready)

  -- `while ready`: the final `visited`. A round pops one node, so `len(node_ids)` rounds are enough
  -- (`drain_lem`).
  pub drain : ℕ → Dict K (List K) → Dict K ℕ → List K → ℕ → Outcome GraphError ℕ
  drain fuel outgoing indegree [] visited = ok visited
  drain zero outgoing indegree (node_id ∷ ready) visited = err out_of_fuel
  drain (suc fuel) outgoing indegree (node_id ∷ ready) visited = do
    targets ← or_raise (lookup node_id outgoing) key_error
    (indegree', ready') ← relax targets indegree ready
    drain fuel outgoing indegree' ready' (visited + 1)

  unfoldable pub assert_acyclic : List K → List (K × K) → Outcome GraphError (Unit {0})
  unfolding add_edges sources relax drain
  assert_acyclic ids edges = do
    (outgoing, indegree) ← add_edges edges (add_keys [] ids [], add_keys 0 ids [])
    ready ← sources ids indegree
    visited ← drain (length ids) outgoing indegree ready 0
    guard (nat_beq visited (length ids)) cyclic
