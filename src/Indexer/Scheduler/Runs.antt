-- ===== src/Indexer/Scheduler/Runs.antt =====
-- What single parts of a run of app/indexer/scheduler.py find.
use signal_count.Base.{
  ℕ, zero, suc, ◌+◌, ◌≤◌, ◌<◌, ◌≡◌, ◌⊎◌, inl, inr, refl, ap, sym, ◌∙◌, subst, String, false, ◌&&◌,
  Option, none, some, leb, ◌==◌, string_eq, nat_eq, arith, Bool-cases,
}
use native.Mathlib.Decide.{ℕ_discrete}
use signal_count.Base.Dict.{Dict, lookup}
use signal_count.Indexer.Events.{IndexedChainBlock}
use signal_count.Store.Chain.{ChainTables, block_hashes}
use signal_count.Indexer.Scheduler.{first_mismatch, last_number, check_header, find_reorg_start}
use signal_count.Indexer.Scheduler.View.{View, headers_from}
use signal_count.Indexer.Scheduler.Tables.{lookup-select}

module _ (v : View) where
  -- No other hash is stored for the block.
  abbrev pub Agrees : Dict ℕ String → ℕ → Type 0
  Agrees rows n = (lookup n rows ≡ none) ⊎ (lookup n rows ≡ some (v.hash n))

  -- What a search of `k` headers from `a` on comes to: agreement, or the first block that does not.
  abbrev pub Searched : Dict ℕ String → ℕ → ℕ → Option ℕ → Type 0
  Searched rows a k o =
      ((o ≡ none) × ((n : ℕ) → a ≤ n → n < a + k → Agrees rows n))
      ⊎ ((b : ℕ) × (o ≡ some b)
          × (a ≤ b)
          × (b < a + k)
          × ((h : String) × (lookup b rows ≡ some h) × ((h == v.hash b) ≡ false))
          × ((n : ℕ) → a ≤ n → n < b → Agrees rows n))

  Agrees-on :
      (rows : Dict ℕ String) (a m : ℕ)
      → Agrees rows a
      → ((n : ℕ) → suc a ≤ n → n < m → Agrees rows n)
      → (n : ℕ) → a ≤ n
      → n < m
      → Agrees rows n
  Agrees-on rows a m here later n lo hi = elim (ℕ_discrete n a) [
    | yes same ↦ subst (Agrees rows) (sym same) here
    | no other ↦ later n (omega arith) hi
  ]

  step :
      (rows : Dict ℕ String) (a k : ℕ) (o : Option ℕ)
      → Agrees rows a
      → Searched rows (suc a) k o
      → Searched rows a (suc k) o
  step rows a k o here (inl (e, all)) =
      inl (e, λ n lo hi. Agrees-on rows a (a + suc k) here (λ m l h. all m l (omega arith)) n lo hi)
  step rows a k o here (inr (b, e, lo, hi, seen, all)) =
      inr (b, e, omega arith, omega arith, seen, Agrees-on rows a b here all)

  check_lem :
      (rows : Dict ℕ String) (a k : ℕ) (later : Option ℕ) (found : Option String)
      → lookup a rows ≡ found
      → Searched rows (suc a) k later
      → Searched rows a
          (suc k)
          (check_header found (record { block_number = a; block_hash = v.hash a }) later)
  check_lem rows a k later none e ih = step rows a k later (inl e) ih
  check_lem rows a k later (some h) e ih = elim (Bool-cases (h == v.hash a)) [
    | inl same ↦
        let agrees = inr (e ∙ ap some ((string_eq.beq_iff h (v.hash a)).0 same)) in
        rw same (step rows a k later agrees ih)
    | inr other ↦
        rw other
          (inr (a, refl, omega arith, omega arith, (h, e, other), λ n lo hi. absurd (omega arith)))
  ]

  first_mismatch_lem :
      (rows : Dict ℕ String) (a k : ℕ)
      → Searched rows a k (first_mismatch rows (headers_from v a k))
  unfolding first_mismatch
  first_mismatch_lem rows a zero = inl (refl, λ n lo hi. absurd (omega arith))
  first_mismatch_lem rows a (suc k) =
      check_lem rows a k (first_mismatch rows (headers_from v (suc a) k)) (lookup a rows) refl
        (first_mismatch_lem rows (suc a) k)

  last_number_lem :
      (a k : ℕ) (h : IndexedChainBlock)
      → h.block_number + 1 ≡ a
      → last_number h (headers_from v a k) + 1 ≡ a + k
  last_number_lem a zero h e = omega arith
  last_number_lem a (suc k) h e =
      omega (arith, last_number_lem (suc a) k (record { block_number = a; block_hash = v.hash a }))

  -- The hashes between the ends are the stored ones.
  hashes_agree :
      (db : ChainTables) (a b n : ℕ)
      → a ≤ n
      → n ≤ b
      → lookup n (block_hashes a b db) ≡ lookup n db.blocks
  unfolding block_hashes
  hashes_agree db a b n lo hi = lookup-select (λ m. leb a m && leb m b) n db.blocks ∙ ground arith

  Agrees-via :
      (rows stored : Dict ℕ String) (n : ℕ)
      → lookup n rows ≡ lookup n stored
      → Agrees rows n
      → Agrees stored n
  Agrees-via rows stored n e agrees = subst (λ o. (o ≡ none) ⊎ (o ≡ some (v.hash n))) e agrees

  -- `_find_reorg_start` over the headers of `k` blocks from `a` on.
  pub find_reorg_start_lem :
      (db : ChainTables) (a k : ℕ)
      → Searched db.blocks a k (find_reorg_start (headers_from v a k) db)
  unfolding find_reorg_start
  find_reorg_start_lem db a zero = inl (refl, λ n lo hi. absurd (omega arith))
  find_reorg_start_lem db a (suc k) =
      let h : IndexedChainBlock = record { block_number = a; block_hash = v.hash a } in
      let last = last_number h (headers_from v (suc a) k) in
      let read = block_hashes a last db in
      let end = last_number_lem (suc a) k h (omega arith) in
      let same =
        λ (n : ℕ) (lo : a ≤ n) (hi : n < a + suc k). hashes_agree db a last n lo (omega arith) in
      elim (first_mismatch_lem (block_hashes a last db) a (suc k)) [
        | inl (e, all) ↦
            inl (e, λ n lo hi. Agrees-via read db.blocks n (same n lo hi) (all n lo hi))
        | inr (b, e, lo, hi, (g, seen, differs), all) ↦
            let before = λ (n : ℕ) (l : a ≤ n) (m : n < b).
              Agrees-via read db.blocks n (same n l (omega arith)) (all n l m) in
            inr (b, e, lo, hi, (g, sym (same b lo hi) ∙ seen, differs), before)
      ]
