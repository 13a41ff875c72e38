-- ===== src/Indexer/Projections.antt =====
-- Local projections rebuilt from indexed chain events (app/indexer/projections.py).
pub mod Leaderboard
pub mod Order
pub mod Tasks
use signal_count.Base.{
  ℕ, ◌+◌, String, Bool, true, false, Option, none, some, List, [], ◌∷◌, ◌++◌, map, ltb, ◌==◌,
  string_eq, nat_eq, if◌then◌else◌,
}
use signal_count.Base.Json.{Json, Fields, get_field}
use signal_count.Base.Dict.{Dict, lookup, insert}
use signal_count.Base.Sorting.{sorted}
use signal_count.Base.Outcome.{Outcome, ok, err, ◌>>=◌, or_raise}
use signal_count.Base.Floats.{Floats}
use signal_count.Indexer.Events.{IndexedChainEvent}

-- An argument that is not there, or that is no number.
pub data ProjectionError : Type 0 where
  missing_argument not_a_number : ProjectionError

-- Python's `int(value)` of an unsigned value, `str(value)`, and `round(n / 1_000_000, 6)`.
pub record Readings (fl : Floats) : Type 0 where
  pub to_nat : Json → Option ℕ
  pub show : Json → String
  pub scaled_down : ℕ → fl.Float

pub record TaskProjection : Type 0 where
  pub task_id : ℕ
  pub task_hash : String
  pub metadata_uri : String
  pub finalized : Bool
  pub memo_hash : Option String

pub record ContributionProjection : Type 0 where
  pub task_id : ℕ
  pub agent : String
  pub role : String
  pub output_hash : String
  pub ree_receipt_hash : String
  pub metadata_uri : String
  pub transaction_hash : String

pub record VerificationProjection (F : Type 0) : Type 0 where
  pub task_id : ℕ
  pub verifier : String
  pub verdict_hash : String
  pub score : F
  pub transaction_hash : String

pub record ReputationProjection (F : Type 0) : Type 0 where
  pub task_id : ℕ
  pub agent : String
  pub role : String
  pub score : F
  pub points : F
  pub native_test_payout_wei : ℕ
  pub metadata_uri : String
  pub transaction_hash : String

pub record ChainEventsProjection (F : Type 0) : Type 0 where
  pub tasks : Dict ℕ TaskProjection
  pub contributions : List ContributionProjection
  pub verifications : List (VerificationProjection F)
  pub reputations : List (ReputationProjection F)

-- The key of the sort: by block, and then by log.
abbrev pub comes_before : IndexedChainEvent → IndexedChainEvent → Bool
comes_before a b =
    if ltb a.block_number b.block_number
    then true
    else if ltb b.block_number a.block_number
    then false
    else ltb a.log_index b.log_index

-- `args[key]`
abbrev pub argument : String → IndexedChainEvent → Outcome ProjectionError Json
argument key e = or_raise (get_field key e.args) missing_argument

abbrev pub was_finalized : Option TaskProjection → Bool
was_finalized none = false
was_finalized (some t) = t.finalized

abbrev pub old_memo : Option TaskProjection → Option String
old_memo none = none
old_memo (some t) = t.memo_hash

abbrev pub old_hash : Option TaskProjection → String
old_hash none = ""
old_hash (some t) = t.task_hash

abbrev pub old_uri : Option TaskProjection → String
old_uri none = ""
old_uri (some t) = t.metadata_uri

-- `tasks[task_id]` after a `TaskCreated` and after a `TaskFinalized`.
abbrev pub created : ℕ → String → String → Option TaskProjection → TaskProjection
created task_id task_hash metadata_uri existing = record {
  task_id = task_id;
  task_hash = task_hash;
  metadata_uri = metadata_uri;
  finalized = was_finalized existing;
  memo_hash = old_memo existing;
}

abbrev pub finalized_with : ℕ → String → Option TaskProjection → TaskProjection
finalized_with task_id memo_hash existing = record {
  task_id = task_id;
  task_hash = old_hash existing;
  metadata_uri = old_uri existing;
  finalized = true;
  memo_hash = some memo_hash;
}

module _ (fl : Floats) (readings : Readings fl) where
  open fl use {Float}
  open readings use {to_nat, show, scaled_down}

  -- `int(args[key])`, `str(args[key])` and `_unscale(args[key])`
  abbrev pub int_argument : String → IndexedChainEvent → Outcome ProjectionError ℕ
  int_argument key e = do value ← argument key e; or_raise (to_nat value) not_a_number

  abbrev pub str_argument : String → IndexedChainEvent → Outcome ProjectionError String
  str_argument key e = do value ← argument key e; ok (show value)

  abbrev pub unscaled_argument : String → IndexedChainEvent → Outcome ProjectionError Float
  unscaled_argument key e = do n ← int_argument key e; ok (scaled_down n)

  abbrev pub State : Type 0
  State = ChainEventsProjection Float

  unfoldable pub task_created : IndexedChainEvent → State → Outcome ProjectionError State
  task_created e p = do
    task_id ← int_argument "task_id" e
    task_hash ← str_argument "task_hash" e
    metadata_uri ← str_argument "metadata_uri" e
    ok (record p {
      tasks =
          insert task_id (created task_id task_hash metadata_uri (lookup task_id p.tasks)) p.tasks;
    })

  unfoldable pub task_finalized : IndexedChainEvent → State → Outcome ProjectionError State
  task_finalized e p = do
    task_id ← int_argument "task_id" e
    memo_hash ← str_argument "memo_hash" e
    ok (record p {
      tasks = insert task_id (finalized_with task_id memo_hash (lookup task_id p.tasks)) p.tasks;
    })

  unfoldable pub contribution_of :
      IndexedChainEvent → Outcome ProjectionError ContributionProjection
  contribution_of e = do
    task_id ← int_argument "task_id" e
    agent ← str_argument "agent" e
    role ← str_argument "role" e
    output_hash ← str_argument "output_hash" e
    ree_receipt_hash ← str_argument "ree_receipt_hash" e
    metadata_uri ← str_argument "metadata_uri" e
    ok (record {
      task_id = task_id;
      agent = agent;
      role = role;
      output_hash = output_hash;
      ree_receipt_hash = ree_receipt_hash;
      metadata_uri = metadata_uri;
      transaction_hash = e.transaction_hash;
    })

  unfoldable pub verification_of :
      IndexedChainEvent → Outcome ProjectionError (VerificationProjection Float)
  verification_of e = do
    task_id ← int_argument "task_id" e
    verifier ← str_argument "verifier" e
    verdict_hash ← str_argument "verdict_hash" e
    score ← unscaled_argument "score" e
    ok (record {
      task_id = task_id;
      verifier = verifier;
      verdict_hash = verdict_hash;
      score = score;
      transaction_hash = e.transaction_hash;
    })

  unfoldable pub reputation_of :
      IndexedChainEvent → Outcome ProjectionError (ReputationProjection Float)
  reputation_of e = do
    task_id ← int_argument "task_id" e
    agent ← str_argument "agent" e
    role ← str_argument "role" e
    score ← unscaled_argument "score" e
    points ← unscaled_argument "points" e
    native_test_payout_wei ← int_argument "native_test_payout_wei" e
    metadata_uri ← str_argument "metadata_uri" e
    ok (record {
      task_id = task_id;
      agent = agent;
      role = role;
      score = score;
      points = points;
      native_test_payout_wei = native_test_payout_wei;
      metadata_uri = metadata_uri;
      transaction_hash = e.transaction_hash;
    })

  -- The events that are recorded as they come.
  unfoldable pub apply_record : IndexedChainEvent → State → Outcome ProjectionError State
  unfolding contribution_of verification_of reputation_of
  apply_record e p =
      if e.event_name == "ContributionRecorded"
      then (contribution_of e >>= λ c. ok (record p { contributions = p.contributions ++ c ∷ [] }))
      else if e.event_name == "VerificationRecorded"
      then (verification_of e >>= λ v. ok (record p { verifications = p.verifications ++ v ∷ [] }))
      else if e.event_name == "ReputationRecorded"
      then (reputation_of e >>= λ r. ok (record p { reputations = p.reputations ++ r ∷ [] }))
      else ok p

  -- One round of the loop of `build_chain_events_projection`.
  unfoldable pub apply_event : IndexedChainEvent → State → Outcome ProjectionError State
  unfolding task_created task_finalized apply_record
  apply_event e p =
      if e.event_name == "TaskCreated"
      then task_created e p
      else if e.event_name == "TaskFinalized"
      then task_finalized e p
      else apply_record e p

  unfoldable pub apply_events : List IndexedChainEvent → State → Outcome ProjectionError State
  unfolding apply_event
  apply_events [] p = ok p
  apply_events (e ∷ es) p = apply_event e p >>= apply_events es

  abbrev pub empty_projection : State
  empty_projection = record { tasks = []; contributions = []; verifications = []; reputations = [] }

  unfoldable pub build_chain_events_projection :
      List IndexedChainEvent → Outcome ProjectionError State
  unfolding apply_events
  build_chain_events_projection events = do
    p ← apply_events (sorted comes_before events) empty_projection
    ok (record p { tasks = sorted (λ a b. ltb a.0 b.0) p.tasks })
