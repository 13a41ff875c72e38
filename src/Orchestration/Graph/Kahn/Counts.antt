-- ===== src/Orchestration/Graph/Kahn/Counts.antt =====
-- What the tables of `_assert_acyclic` count, and a topological order read as a rank.
use signal_count.Base.{
  ℕ, suc, ◌+◌, ◌<◌, ◌≡◌, true, false, not, ◌&&◌, List, [], ◌∷◌, arith, Eq, ◌==◌, is_mem, count,
  some, if◌then◌else◌,
}
use signal_count.Base.Dict.{Dict, lookup, insert, lookup-insert}

module _ {K : Type 0} ⦃e : Eq K⦄ where
  -- Both ends of every edge are nodes.
  abbrev pub IsKnown : List K → List (K × K) → Type 0
  IsKnown ids [] = Unit
  IsKnown ids ((s, t) ∷ es) = (is_mem s ids ≡ true) × (is_mem t ids ≡ true) × IsKnown ids es

  -- Every edge leads to a higher rank.
  abbrev pub IsRanked : (K → ℕ) → List (K × K) → Type 0
  IsRanked rank [] = Unit
  IsRanked rank ((s, t) ∷ es) = (rank s < rank t) × IsRanked rank es

  abbrev pub targets : K → List (K × K) → List K
  targets n [] = []
  targets n ((s, t) ∷ es) = if s == n then t ∷ targets n es else targets n es

  abbrev pub incoming : K → List (K × K) → ℕ
  incoming v [] = 0
  incoming v ((s, t) ∷ es) = if t == v then suc (incoming v es) else incoming v es

  -- The edges into `v` whose source is not in `done`.
  abbrev pub blocked : List K → K → List (K × K) → ℕ
  blocked done v [] = 0
  blocked done v ((s, t) ∷ es) =
      if (t == v) && not (is_mem s done) then suc (blocked done v es) else blocked done v es

  -- The dict has the value `f k` at every node.
  abbrev pub Represents : {V : Type 0} → List K → Dict K V → (K → V) → Type 0
  Represents ids d f = (k : K) → is_mem k ids ≡ true → lookup k d ≡ some (f k)

  pub insert-Represents :
      {V : Type 0} (ids : List K) (d : Dict K V) (f : K → V) (k : K) (v : V)
      → Represents ids d f
      → Represents ids (insert k v d) (λ j. if k == j then v else f j)
  insert-Represents ids d f k v rep j m = ground (arith, lookup-insert k j v d, rep j m)

  pub blocked-nil : (v : K) (es : List (K × K)) → blocked [] v es ≡ incoming v es
  blocked-nil v [] = ground arith
  blocked-nil v ((s, t) ∷ es) = ground (arith, blocked-nil v es)

  -- Popping a node lowers each count by the edges that it sends there.
  pub blocked-cons :
      (n : K) (done : List K) (v : K) (es : List (K × K))
      → is_mem n done ≡ false
      → blocked done v es ≡ count v (targets n es) + blocked (n ∷ done) v es
  blocked-cons n done v [] h = omega arith
  blocked-cons n done v ((s, t) ∷ es) h =
      ground (arith, blocked-cons n done v es h, e.beq_iff s n, e.beq_iff n s)

  pub is_mem-targets :
      (ids : List K) (n v : K) (es : List (K × K))
      → IsKnown ids es
      → is_mem v (targets n es) ≡ true
      → is_mem v ids ≡ true
  is_mem-targets ids n v [] known h = ground arith
  is_mem-targets ids n v ((s, t) ∷ es) known h =
      ground (arith, is_mem-targets ids n v es known.2, e.beq_iff t v)
