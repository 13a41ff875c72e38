-- ===== src/Orchestration/Graph/Kahn/Correct.antt =====
-- The graphs that `_assert_acyclic` of app/orchestration/graph.py accepts.
use signal_count.Base.{
  ℕ, suc, ◌≤◌, ◌<◌, ◌≡◌, ◌⊎◌, inl, inr, refl, sym, subst, ne_of_mem, true, false, List, [], ◌∷◌,
  length, arith, Eq, ◌==◌, is_mem, is_mem-cons, IsDistinct, length-le_of_subset, Bool-cases,
  nat_beq, nat_beq_iff, ◌↔◌, if◌then◌else◌,
}
use signal_count.Base.Dict.{add_keys, lookup-add_keys}
use signal_count.Base.Outcome.{ok, err, guard}
use signal_count.Orchestration.Graph.Kahn.{cyclic, assert_acyclic}
use signal_count.Orchestration.Graph.Kahn.Counts.{IsKnown, IsRanked, incoming, blocked, blocked-nil}
use signal_count.Orchestration.Graph.Kahn.Tables.{add_edges_lem, sources_lem}
use signal_count.Orchestration.Graph.Kahn.Walks.{
  IsEdge, Walk, IsRanked-Walk, IsRanked-of_each, IsKnown-target, blocked-source, chase,
}
use signal_count.Orchestration.Graph.Kahn.Loop.{
  IsTopo, IsTopo-IsDistinct, IsTopo-known, length-IsTopo-le, drain_lem,
}

module _ {K : Type 0} ⦃e : Eq K⦄ (ids : List K) (edges : List (K × K)) where
  -- What the whole function computes, by the nodes that its loop has popped.
  run :
      IsKnown ids edges
      → IsDistinct ids
      → (done : List K) × (assert_acyclic ids edges
          ≡ guard (nat_beq (length done) (length ids)) cyclic)
        × IsTopo ids edges done
        × ((v : K) → is_mem v ids ≡ true → is_mem v done ≡ nat_beq (blocked done v edges) 0)
  unfolding assert_acyclic
  run known d =
      let start =
        add_edges_lem ids edges (add_keys [] ids []) (add_keys 0 ids []) (λ _. []) (λ _. 0) known
          (λ k m. rw (lookup-add_keys, m) refl) (λ k m. rw (lookup-add_keys, m) refl) in
      let first =
        sources_lem ids ids start.0.1 (λ k. incoming k edges) (λ _ m. m)
          (λ k m. ground (arith, start.3 k m)) d in
      let last =
        drain_lem ids edges (length ids) start.0.0 [] start.0.1 first.0 known start.2 tt
          (record {
            counts = λ k m. ground (arith, blocked-nil k edges, start.3 k m);
            queued = λ v m. ground (arith, first.2 v, m, blocked-nil v edges);
            fresh = λ v m. ground (arith, first.2 v, m);
            distinct = first.3;
          })
          (omega arith) in
      (last.0, rw (start.1, first.1, last.1) refl, last.2, last.3)

  -- Every node was popped, or one was not.
  missing :
      (xs done : List K)
      → ((v : K) → is_mem v xs ≡ true → is_mem v done ≡ true)
        ⊎ ((u : K) × (is_mem u xs ≡ true) × (is_mem u done ≡ false))
  missing [] done = inl (λ v m. ground (arith, m))
  missing (x ∷ xs) done = elim (Bool-cases (is_mem x done)) [
    | inr left ↦ inr (x, ground (arith, e.beq_iff x x), left)
    | inl popped ↦ elim (missing xs done) [
      | inr (u, known, left) ↦ inr (u, ground (arith, known), left)
      | inl all ↦ inl (λ v m. elim (is_mem-cons v x xs m) [
        | inl p ↦ subst (λ y. is_mem y done ≡ true) p popped
        | inr later ↦ all v later
      ])
    ]
  ]

  -- The place of a node in the order of popping.
  abbrev place : List K → K → ℕ
  place [] v = 0
  place (x ∷ xs) v = if x == v then suc (length xs) else place xs v

  place-le : (done : List K) (v : K) → place done v ≤ length done
  place-le [] v = omega arith
  place-le (x ∷ xs) v = ground (arith, place-le xs v)

  place-lt :
      (done : List K) (s t : K)
      → IsTopo ids edges done
      → IsEdge s t edges
      → is_mem t done ≡ true
      → (is_mem s done ≡ true) × (place done s < place done t)
  place-lt [] s t topo m h = ground (arith, h)
  place-lt (x ∷ xs) s t topo m h = elim (is_mem-cons t x xs h) [
    | inl p ↦
        let before = blocked-source xs s x edges (subst (λ y. IsEdge s y edges) (sym p) m) topo.2 in
        ground (
          arith,
          before,
          place-le xs s,
          e.beq_iff x t,
          e.beq_iff x s,
          p,
          ne_of_mem x s xs topo.0 before,
        )
    | inr later ↦
        let before = place-lt xs s t topo.3 m later in
        ground (arith, before, ne_of_mem x s xs topo.0 before.0, ne_of_mem x t xs topo.0 later)
  ]

  -- All nodes were popped: the function accepts, and the order of popping ranks the edges.
  accepted :
      IsKnown ids edges
      → (done : List K) → IsTopo ids edges done
      → IsDistinct ids
      → ((v : K) → is_mem v ids ≡ true → is_mem v done ≡ true)
      → (length done ≡ length ids) × IsRanked (place done) edges
  accepted known done topo d all = (
    omega (arith, length-IsTopo-le ids edges done topo, length-le_of_subset ids done d all),
    IsRanked-of_each (place done) edges
        λ s t m. (place-lt done s t topo m (all t (IsKnown-target ids s t edges known m))).1,
  )

  -- A node is left: a node that stays blocked leads back to itself.
  rejected :
      IsKnown ids edges
      → (done : List K) → IsTopo ids edges done
      → ((v : K) → is_mem v ids ≡ true → is_mem v done ≡ nat_beq (blocked done v edges) 0)
      → (u : K) → is_mem u ids ≡ true
      → is_mem u done ≡ false
      → (length done < length ids) × ((v : K) × Walk edges v v)
  rejected known done topo exact u mem left = (
    length-le_of_subset (u ∷ done) ids (left, IsTopo-IsDistinct ids edges done topo)
        (λ v m. elim (is_mem-cons v u done m) [
          | inl p ↦ subst (λ y. is_mem y ids ≡ true) p mem
          | inr popped ↦ IsTopo-known ids edges done v topo popped
        ]),
    chase ids edges done known (λ v m out z. ground (arith, exact v m)) (length ids) u []
        (omega arith) (refl, tt)
        (λ v m. elim (is_mem-cons v u [] m) [
          | inl p ↦ subst (λ y. is_mem y ids ≡ true) p mem
          | inr none_left ↦ cc
        ])
        (λ v m. elim (is_mem-cons v u [] m) [ inl p ↦ inl p | inr none_left ↦ cc ]) left,
  )

  -- It accepts, with a rank that every edge raises, or it raises, with a closed walk.
  pub assert_acyclic_decides :
      IsKnown ids edges
      → IsDistinct ids
      → ((assert_acyclic ids edges ≡ ok tt) × ((rank : K → ℕ) × IsRanked rank edges))
        ⊎ ((assert_acyclic ids edges ≡ err cyclic) × ((v : K) × Walk edges v v))
  assert_acyclic_decides known d =
      let r = run known d in
      elim (missing ids r.0) [
        | inl all ↦
            let a = accepted known r.0 r.2 d all in
            inl
              (rw (r.1, a.0, (nat_beq_iff (length ids) (length ids)).1 refl) refl, (place r.0, a.1))
        | inr (u, mem, left) ↦
            let b = rejected known r.0 r.2 r.3 u mem left in inr (rw r.1 (ground arith), b.1)
      ]

  -- With known edges and distinct nodes, the function accepts exactly a graph without a closed walk.
  pub assert_acyclic_iff :
      IsKnown ids edges
      → IsDistinct ids
      → (assert_acyclic ids edges ≡ ok tt) ↔ ((v : K) → ¬ Walk edges v v)
  assert_acyclic_iff known d = elim (assert_acyclic_decides known d) [
    | inl (good, (rank, ranked)) ↦
        (λ _ v w. absurd (omega (arith, IsRanked-Walk rank edges ranked w)), λ _. good)
    | inr (bad, (v, w)) ↦ (λ good. cc, λ none. absurd (none v w))
  ]
