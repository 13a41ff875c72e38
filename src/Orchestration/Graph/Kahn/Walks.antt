-- ===== src/Orchestration/Graph/Kahn/Walks.antt =====
-- Walks along the edges of a graph, ranks that exclude a closed one, and where a node that stays
-- blocked leads.
use signal_count.Base.{
  ℕ, zero, suc, ◌+◌, ◌≤◌, ◌<◌, ◌≡◌, ◌≢◌, ◌⊎◌, inl, inr, refl, subst, true, false, List, [], ◌∷◌,
  length, arith, Eq, ◌==◌, is_mem, is_mem-cons, IsDistinct, length-le_of_subset, Bool-cases,
}
use signal_count.Orchestration.Graph.Kahn.Counts.{IsKnown, IsRanked, blocked}

-- There is an edge from `s` to `t`.
abbrev pub IsEdge : {K : Type 0} → K → K → List (K × K) → Type 0
IsEdge s t [] = ⊥
IsEdge s t ((a, b) ∷ es) = ((a ≡ s) × (b ≡ t)) ⊎ IsEdge s t es

-- A walk of one edge or more.
pub data Walk {K : Type 0} (es : List (K × K)) : K → K → Type 0 where
  edge : {s t : K} → IsEdge s t es → Walk es s t
  step : {s t u : K} → IsEdge s t es → Walk es t u → Walk es s u

module _ {K : Type 0} ⦃e : Eq K⦄ where
  pub IsRanked-edge :
      (rank : K → ℕ) (s t : K) (es : List (K × K))
      → IsRanked rank es
      → IsEdge s t es
      → rank s < rank t
  IsRanked-edge rank s t [] h m = absurd m
  IsRanked-edge rank s t ((a, b) ∷ es) h (inl p) = rw (← p.0, ← p.1) h.0
  IsRanked-edge rank s t ((a, b) ∷ es) h (inr m) = IsRanked-edge rank s t es h.1 m

  pub IsRanked-Walk :
      (rank : K → ℕ) (es : List (K × K)) {s t : K}
      → IsRanked rank es
      → Walk es s t
      → rank s < rank t
  IsRanked-Walk rank es h (edge {s = s} {t = t} m) = IsRanked-edge rank s t es h m
  IsRanked-Walk rank es h (step {s = s} {t = t} m w) =
      omega (arith, IsRanked-edge rank s t es h m, IsRanked-Walk rank es h w)

  pub IsRanked-of_each :
      (rank : K → ℕ) (es : List (K × K))
      → ((s t : K) → IsEdge s t es → rank s < rank t)
      → IsRanked rank es
  IsRanked-of_each rank [] h = tt
  IsRanked-of_each rank ((a, b) ∷ es) h =
      (h a b (inl (refl, refl)), IsRanked-of_each rank es (λ s t m. h s t (inr m)))

  pub IsKnown-source :
      (ids : List K) (s t : K) (es : List (K × K))
      → IsKnown ids es
      → IsEdge s t es
      → is_mem s ids ≡ true
  IsKnown-source ids s t [] h m = absurd m
  IsKnown-source ids s t ((a, b) ∷ es) h (inl p) = rw (← p.0) h.0
  IsKnown-source ids s t ((a, b) ∷ es) h (inr m) = IsKnown-source ids s t es h.2 m

  pub IsKnown-target :
      (ids : List K) (s t : K) (es : List (K × K))
      → IsKnown ids es
      → IsEdge s t es
      → is_mem t ids ≡ true
  IsKnown-target ids s t [] h m = absurd m
  IsKnown-target ids s t ((a, b) ∷ es) h (inl p) = rw (← p.1) h.1
  IsKnown-target ids s t ((a, b) ∷ es) h (inr m) = IsKnown-target ids s t es h.2 m

  -- Nothing blocks a node: all its sources were popped.
  pub blocked-source :
      (done : List K) (s v : K) (es : List (K × K))
      → IsEdge s v es
      → blocked done v es ≡ 0
      → is_mem s done ≡ true
  blocked-source done s v [] m z = absurd m
  blocked-source done s v ((a, b) ∷ es) (inl p) z = rw (← p.0) (ground (arith, e.beq_iff b v, p.1))
  blocked-source done s v ((a, b) ∷ es) (inr m) z = blocked-source done s v es m (ground arith)

  -- Something blocks it: one of its sources was not popped.
  pub blocker :
      (done : List K) (v : K) (es : List (K × K))
      → blocked done v es ≢ 0
      → (s : K) × IsEdge s v es × (is_mem s done ≡ false)
  blocker done v [] z = absurd (z refl)
  blocker done v ((a, b) ∷ es) z = elim (Bool-cases (b == v)) [
    | inl here ↦ elim (Bool-cases (is_mem a done)) [
      | inl popped ↦ let r = blocker done v es (λ p. z (rw (here, popped) p)) in (r.0, inr r.1, r.2)
      | inr left ↦ (a, inl (refl, (e.beq_iff b v).0 here), left)
    ]
    | inr other ↦ let r = blocker done v es (λ p. z (rw other p)) in (r.0, inr r.1, r.2)
  ]

  -- Going back from source to source, a node is met again before the nodes run out.
  pub chase :
      (ids : List K) (es : List (K × K)) (done : List K)
      → IsKnown ids es
      → ((v : K) → is_mem v ids ≡ true → is_mem v done ≡ false → blocked done v es ≢ 0)
      → (fuel : ℕ) (x : K) (path : List K) → length ids ≤ fuel + length path
      → IsDistinct (x ∷ path)
      → ((v : K) → is_mem v (x ∷ path) ≡ true → is_mem v ids ≡ true)
      → ((v : K) → is_mem v (x ∷ path) ≡ true → (x ≡ v) ⊎ Walk es x v)
      → is_mem x done ≡ false
      → (v : K) × Walk es v v
  chase ids es done known stuck zero x path h d sub back out =
      absurd (omega (arith, length-le_of_subset (x ∷ path) ids d sub))
  chase ids es done known stuck (suc fuel) x path h d sub back out =
      let b = blocker done x es (stuck x (sub x (ground (arith, e.beq_iff x x))) out) in
      elim (Bool-cases (is_mem b.0 (x ∷ path))) [
        | inl met ↦ elim (back b.0 met) [
          | inl same ↦ (b.0, edge (subst (λ y. IsEdge b.0 y es) same b.1))
          | inr w ↦ (b.0, step b.1 w)
        ]
        | inr new ↦
            chase ids es done known stuck fuel b.0 (x ∷ path) (omega arith) (new, d)
              (λ v m. elim (is_mem-cons v b.0 (x ∷ path) m) [
                | inl p ↦ subst (λ y. is_mem y ids ≡ true) p (IsKnown-source ids b.0 x es known b.1)
                | inr later ↦ sub v later
              ])
              (λ v m. elim (is_mem-cons v b.0 (x ∷ path) m) [
                | inl p ↦ inl p
                | inr later ↦ elim (back v later) [
                  | inl q ↦ inr (edge (subst (λ y. IsEdge b.0 y es) q b.1))
                  | inr w ↦ inr (step b.1 w)
                ]
              ])
              b.2
      ]
