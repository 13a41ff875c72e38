-- ===== src/Indexer/Scheduler/View.antt =====
-- A chain as a node serves it: the hash and the logs of each block, and the poller that reads it.
use signal_count.Base.{
  ℕ, zero, suc, ◌+◌, ◌-◌, ◌≤◌, ◌<◌, ◌≡◌, ◌⊎◌, ◌↔◌, inl, inr, List, [], ◌∷◌, ◌++◌, String, arith,
  subst,
}
use native.Mathlib.Decide.{ℕ_discrete}
use signal_count.Base.Outcome.{ok}
use signal_count.Indexer.Events.{IndexedChainEvent, IndexedChainBlock, event_id}
use signal_count.Indexer.Scheduler.{Poller}

abbrev pub IsIn : {A : Type 0} → A → List A → Type 0
IsIn a [] = ⊥
IsIn a (x ∷ xs) = (a ≡ x) ⊎ IsIn a xs

pub IsIn-append :
    {A : Type 0} (a : A) (xs ys : List A) → IsIn a (xs ++ ys) ↔ (IsIn a xs ⊎ IsIn a ys)
IsIn-append a [] ys = (λ m. inr m, λ m. elim m [ inl n ↦ absurd n | inr n ↦ n ])
IsIn-append a (x ∷ xs) ys =
    let ih = IsIn-append a xs ys in
    (
      λ m. elim m [
        | inl here ↦ inl (inl here)
        | inr later ↦ elim (ih.0 later) [ inl n ↦ inl (inr n) | inr n ↦ inr n ]
      ],
      λ m. elim m [
        | inl n ↦ elim n [ inl here ↦ inl here | inr later ↦ inr (ih.1 (inl later)) ]
        | inr n ↦ inr (ih.1 (inr n))
      ],
    )

pub record View : Type 0 where
  pub hash : ℕ → String
  pub logs : ℕ → List IndexedChainEvent

-- A log names the block that it stands in, and its id is unique in the chain.
pub record IsView (v : View) : Type 0 where
  pub placed : (n : ℕ) (e : IndexedChainEvent) → IsIn e (v.logs n) → e.block_number ≡ n
  pub unique :
      (n m : ℕ) (d e : IndexedChainEvent)
      → IsIn d (v.logs n)
      → IsIn e (v.logs m)
      → event_id d ≡ event_id e
      → d ≡ e

module _ (v : View) where
  -- The headers, and the logs, of `k` blocks from `a` on.
  abbrev pub headers_from : ℕ → ℕ → List IndexedChainBlock
  headers_from a zero = []
  headers_from a (suc k) =
      record { block_number = a; block_hash = v.hash a } ∷ headers_from (suc a) k

  abbrev pub logs_from : ℕ → ℕ → List IndexedChainEvent
  logs_from a zero = []
  logs_from a (suc k) = v.logs a ++ logs_from (suc a) k

  -- A poller that reads this chain, whose newest block is `latest`, and never raises.
  abbrev pub poller_of : ℕ → Poller
  poller_of latest = record {
    latest_block_number = ok latest;
    block_headers = λ a b. ok (headers_from a (suc b - a));
    poll = λ a b. ok (logs_from a (suc b - a));
  }

  -- The event stands in one of the `k` blocks from `a` on.
  pub IsIn-logs_from :
      (e : IndexedChainEvent) (a k : ℕ)
      → IsIn e (logs_from a k) ↔ ((n : ℕ) × (a ≤ n) × (n < a + k) × IsIn e (v.logs n))
  IsIn-logs_from e a zero = (λ m. absurd m, λ (n, lo, hi, m). absurd (omega arith))
  IsIn-logs_from e a (suc k) =
      let split = IsIn-append e (v.logs a) (logs_from (suc a) k) in
      let ih = IsIn-logs_from e (suc a) k in
      (
        λ m. elim (split.0 m) [
          | inl here ↦ (a, omega arith, omega arith, here)
          | inr later ↦ let (n, lo, hi, w) = ih.0 later in (n, omega arith, omega arith, w)
        ],
        λ (n, lo, hi, m). split.1 (elim (ℕ_discrete n a) [
          | yes same ↦ inl (subst (λ x. IsIn e (v.logs x)) same m)
          | no later ↦ inr (ih.1 (n, omega arith, omega arith, m))
        ]),
      )
