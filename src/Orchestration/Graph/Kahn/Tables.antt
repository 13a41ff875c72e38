-- ===== src/Orchestration/Graph/Kahn/Tables.antt =====
-- The loops of `_assert_acyclic` that fill the tables, and the inner loop that lowers them.
use signal_count.Base.{
  ℕ, suc, ◌+◌, ◌-◌, ◌≡◌, refl, true, false, ◌&&◌, ◌||◌, List, [], ◌∷◌, ◌++◌, arith, Eq, ◌==◌,
  is_mem, is_mem-append, count, IsDistinct, IsDistinct-snoc, some, nat_beq, if◌then◌else◌,
}
use signal_count.Base.Dict.{Dict, lookup, insert, lookup-insert}
use signal_count.Base.Outcome.{ok}
use signal_count.Orchestration.Graph.Kahn.{Tables, add_edges, sources, relax}
use signal_count.Orchestration.Graph.Kahn.Counts.{
  IsKnown, targets, incoming, Represents, insert-Represents,
}
use mathlib.Core.List.{append_assoc, append-nil}

module _ {K : Type 0} ⦃e : Eq K⦄ (ids : List K) where
  -- The tables after the loop over the edges, from any start.
  pub add_edges_lem :
      (es : List (K × K)) (outgoing : Dict K (List K)) (indegree : Dict K ℕ) (f : K → List K)
      (g : K → ℕ)
      → IsKnown ids es
      → Represents ids outgoing f
      → Represents ids indegree g
      → (t : Tables K) × (add_edges es (outgoing, indegree) ≡ ok t)
        × Represents ids t.0 (λ k. f k ++ targets k es)
        × Represents ids t.1 (λ k. g k + incoming k es)
  unfolding add_edges
  add_edges_lem [] outgoing indegree f g known rf rg =
      ((outgoing, indegree), refl, λ k m. rw append-nil (rf k m), λ k m. ground (arith, rg k m))
  add_edges_lem ((s, t) ∷ es) outgoing indegree f g known rf rg =
      let f' = λ (k : K). if s == k then f s ++ t ∷ [] else f k in
      let g' = λ (k : K). if t == k then g t + 1 else g k in
      let rest =
        add_edges_lem es (insert s (f s ++ t ∷ []) outgoing) (insert t (g t + 1) indegree) f' g'
          known.2 (insert-Represents ids outgoing f s (f s ++ t ∷ []) rf)
          (insert-Represents ids indegree g t (g t + 1) rg) in
      (
        rest.0,
        rw (rf s known.0, rg t known.1) rest.1,
        λ k m.
            ground (arith, rest.2 k m, e.beq_iff s k, append_assoc (f s) (t ∷ []) (targets k es)),
        λ k m. ground (arith, rest.3 k m, e.beq_iff t k),
      )

  -- `ready` at the start: the nodes with no incoming edge, each once.
  pub sources_lem :
      (ks : List K) (indegree : Dict K ℕ) (g : K → ℕ)
      → ((k : K) → is_mem k ks ≡ true → is_mem k ids ≡ true)
      → Represents ids indegree g
      → IsDistinct ks
      → (ready : List K) × (sources ks indegree ≡ ok ready)
        × ((v : K) → is_mem v ready ≡ (is_mem v ks && nat_beq (g v) 0))
        × IsDistinct ready
  unfolding sources
  sources_lem [] indegree g sub rg d = ([], refl, λ v. refl, tt)
  sources_lem (k ∷ ks) indegree g sub rg d =
      let rest = sources_lem ks indegree g (λ j m. sub j (ground (arith, m))) rg d.1 in
      let here = rg k (sub k (ground (arith, e.beq_iff k k))) in
      (
        if nat_beq (g k) 0 then k ∷ rest.0 else rest.0,
        rw (here, rest.1) refl,
        λ v. ground (arith, rest.2 v, e.beq_iff k v),
        ground (arith, rest.2 k, rest.3, d.0),
      )

  -- The queue while the targets `ts` of a popped node are still to be lowered: a node has been
  -- queued exactly if nothing blocks it.
  pub record Queued (done : List K) (b : K → ℕ) (indegree : Dict K ℕ) (ready : List K)
      : Type 0 where
    pub counts : Represents ids indegree b
    pub queued : (v : K) → is_mem v ids ≡ true → (is_mem v ready || is_mem v done) ≡ nat_beq (b v) 0
    pub fresh : (v : K) → is_mem v ready ≡ true → (is_mem v ids ≡ true) × (is_mem v done ≡ false)
    pub distinct : IsDistinct ready

  -- Lowering one target keeps the queue right: it is queued as its count reaches zero.
  lowered :
      (t : K) (ts : List K) (done : List K) (b : K → ℕ) (indegree : Dict K ℕ) (ready : List K)
      → is_mem t ids ≡ true
      → Queued done (λ v. count v (t ∷ ts) + b v) indegree ready
      → Queued done
          (λ v. count v ts + b v)
          (insert t (count t ts + b t) indegree)
          (if nat_beq (count t ts + b t) 0 then ready ++ t ∷ [] else ready)
  lowered t ts done b indegree ready known q =
      let at = q.queued t known in
      record {
        counts = λ k m.
            ground
              (arith, q.counts k m, e.beq_iff t k, lookup-insert t k (count t ts + b t) indegree);
        queued = λ v m.
            ground (
              arith,
              q.queued v m,
              at,
              e.beq_iff t v,
              e.beq_iff t t,
              is_mem-append v ready (t ∷ []),
            );
        fresh = λ v m. ground (
          arith,
          q.fresh v,
          at,
          known,
          e.beq_iff t v,
          e.beq_iff t t,
          is_mem-append v ready (t ∷ []),
        );
        distinct =
            ground (arith, at, e.beq_iff t t, q.distinct, IsDistinct-snoc ready t q.distinct);
      }

  pub relax_lem :
      (ts : List K) (done : List K) (b : K → ℕ) (indegree : Dict K ℕ) (ready : List K)
      → ((v : K) → is_mem v ts ≡ true → is_mem v ids ≡ true)
      → Queued done (λ v. count v ts + b v) indegree ready
      → (r : Dict K ℕ × List K) × (relax ts indegree ready ≡ ok r) × Queued done b r.0 r.1
  unfolding relax
  relax_lem [] done b indegree ready sub q = (
    (indegree, ready),
    refl,
    record {
      counts = λ k m. ground (arith, q.counts k m);
      queued = λ v m. ground (arith, q.queued v m);
      fresh = q.fresh;
      distinct = q.distinct;
    },
  )
  relax_lem (t ∷ ts) done b indegree ready sub q =
      let known = sub t (ground (arith, e.beq_iff t t)) in
      let c = count t ts + b t in
      let rest =
        relax_lem ts done b (insert t c indegree) (if nat_beq c 0 then ready ++ t ∷ [] else ready)
          (λ v m. sub v (ground (arith, m))) (lowered t ts done b indegree ready known q) in
      let here : lookup t indegree ≡ some (suc c) =
        ground (arith, q.counts t known, e.beq_iff t t) in
      let one : suc c - 1 ≡ c = omega arith in (rest.0, rw (here, one) rest.1, rest.2)
