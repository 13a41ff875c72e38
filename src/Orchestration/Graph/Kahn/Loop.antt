-- ===== src/Orchestration/Graph/Kahn/Loop.antt =====
-- The `while ready` loop of `_assert_acyclic`: its rounds, and the order of what it has popped.
use signal_count.Base.{
  ℕ, zero, suc, ◌+◌, ◌≤◌, ◌≡◌, refl, true, false, List, [], ◌∷◌, length, arith, Eq, is_mem, count,
  IsDistinct, nat_beq, length-le_of_subset,
}
use signal_count.Base.Dict.{Dict}
use signal_count.Base.Outcome.{Outcome, ok}
use signal_count.Orchestration.Graph.Kahn.{GraphError, drain}
use signal_count.Orchestration.Graph.Kahn.Counts.{
  IsKnown, targets, blocked, blocked-cons, is_mem-targets, Represents,
}
use signal_count.Orchestration.Graph.Kahn.Tables.{Queued, relax_lem}

module _ {K : Type 0} ⦃e : Eq K⦄ (ids : List K) (edges : List (K × K)) where
  -- Each popped node was popped once, is a node, and had all its sources popped before it.
  abbrev pub IsTopo : List K → Type 0
  IsTopo [] = Unit
  IsTopo (x ∷ xs) =
      (is_mem x xs ≡ false) × (is_mem x ids ≡ true) × (blocked xs x edges ≡ 0) × IsTopo xs

  pub IsTopo-IsDistinct : (xs : List K) → IsTopo xs → IsDistinct xs
  IsTopo-IsDistinct [] h = tt
  IsTopo-IsDistinct (x ∷ xs) h = (h.0, IsTopo-IsDistinct xs h.3)

  pub IsTopo-known : (xs : List K) (v : K) → IsTopo xs → is_mem v xs ≡ true → is_mem v ids ≡ true
  IsTopo-known [] v h m = ground arith
  IsTopo-known (x ∷ xs) v h m = ground (arith, IsTopo-known xs v h.3, e.beq_iff x v)

  pub length-IsTopo-le : (xs : List K) → IsTopo xs → length xs ≤ length ids
  length-IsTopo-le xs h =
      length-le_of_subset xs ids (IsTopo-IsDistinct xs h) (λ v m. IsTopo-known xs v h m)

  abbrev pub Ready : List K → Dict K ℕ → List K → Type 0
  Ready done indegree ready = Queued ids done (λ v. blocked done v edges) indegree ready

  -- Moving the head of the queue to the popped nodes.
  popped :
      (n : K) (done : List K) (indegree : Dict K ℕ) (r : List K)
      → Ready done indegree (n ∷ r)
      → Queued ids
          (n ∷ done)
          (λ v. count v (targets n edges) + blocked (n ∷ done) v edges)
          indegree
          r
  popped n done indegree r q =
      let self = q.fresh n (ground (arith, e.beq_iff n n)) in
      record {
        counts = λ k m. ground (arith, q.counts k m, blocked-cons n done k edges self.1);
        queued = λ v m. ground (arith, q.queued v m, blocked-cons n done v edges self.1);
        fresh = λ v m. ground (arith, q.fresh v, q.distinct, e.beq_iff n v);
        distinct = q.distinct.1;
      }

  popped-IsTopo :
      (n : K) (done : List K) (indegree : Dict K ℕ) (r : List K)
      → Ready done indegree (n ∷ r)
      → IsTopo done
      → IsTopo (n ∷ done)
  popped-IsTopo n done indegree r q topo =
      let self = q.fresh n (ground (arith, e.beq_iff n n)) in
      (self.1, self.0, ground (arith, q.queued n self.0, e.beq_iff n n), topo)

  -- What the loop returns: the number of popped nodes, and nothing is left in the queue.
  abbrev pub Drained : Outcome GraphError ℕ → Type 0
  Drained o =
      (done : List K) × (o ≡ ok (length done))
      × IsTopo done
      × ((v : K) → is_mem v ids ≡ true → is_mem v done ≡ nat_beq (blocked done v edges) 0)

  pub drain_lem :
      (fuel : ℕ) (outgoing : Dict K (List K)) (done : List K) (indegree : Dict K ℕ) (ready : List K)
      → IsKnown ids edges
      → Represents ids outgoing (λ k. targets k edges)
      → IsTopo done
      → Ready done indegree ready
      → length ids ≤ fuel + length done
      → Drained (drain fuel outgoing indegree ready (length done))
  unfolding drain
  drain_lem fuel outgoing done indegree [] known out topo q h = (done, refl, topo, q.queued)
  drain_lem zero outgoing done indegree (n ∷ r) known out topo q h =
      absurd (omega (arith, length-IsTopo-le (n ∷ done) (popped-IsTopo n done indegree r q topo)))
  drain_lem (suc fuel) outgoing done indegree (n ∷ r) known out topo q h =
      let self = q.fresh n (ground (arith, e.beq_iff n n)) in
      let sub =
        λ (v : K) (m : is_mem v (targets n edges) ≡ true). is_mem-targets ids n v edges known m in
      let step =
        relax_lem ids (targets n edges) (n ∷ done) (λ v. blocked (n ∷ done) v edges) indegree r sub
          (popped n done indegree r q) in
      let one : length done + 1 ≡ suc (length done) = omega arith in
      rw (out n self.0, step.1, one)
        (drain_lem fuel outgoing (n ∷ done) step.0.0 step.0.1 known out
          (popped-IsTopo n done indegree r q topo) step.2 (omega arith))
