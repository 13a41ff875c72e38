-- ===== src/Indexer/Projections/Tasks.antt =====
-- The tasks of app/indexer/projections.py, by the events that create and finalize them.
use signal_count.Base.{
  ℕ, String, ◌≡◌, refl, sym, ap, ◌∙◌, subst, inl, inr, Bool, true, false, ◌&&◌, ◌||◌, List, [], ◌∷◌,
  ltb, nat_beq, nat_beq_iff, ◌==◌, string_eq, nat_eq, if◌then◌else◌, Bool-cases, arith,
}
use signal_count.Base.Dict.{Dict, lookup, insert}
use signal_count.Base.Sorting.{sorted, sorted-Reordered, any, any-Reordered}
use signal_count.Base.Outcome.{Outcome, ok, err, ◌>>=◌, >>=-ok, ok_inj}
use signal_count.Base.Floats.{Floats}
use signal_count.Indexer.Events.{IndexedChainEvent}
use signal_count.Indexer.Projections.{
  ProjectionError, Readings, TaskProjection, State, comes_before, int_argument, str_argument,
  created, finalized_with, was_finalized, task_created, task_finalized, contribution_of,
  verification_of, reputation_of, apply_record, apply_event, apply_events, empty_projection,
  build_chain_events_projection,
}

-- The task with this id is in the table; it is there and finalized.
abbrev pub is_listed : ℕ → Dict ℕ TaskProjection → Bool
is_listed task_id tasks = any (λ row. nat_beq row.0 task_id) tasks

abbrev pub is_finalized : ℕ → Dict ℕ TaskProjection → Bool
is_finalized task_id tasks = any (λ row. nat_beq row.0 task_id && row.1.finalized) tasks

-- A row that is written with the flag that it had changes nothing, and one that is finalized itself.
keep-is_finalized :
    (i k : ℕ) (t : TaskProjection) (d : Dict ℕ TaskProjection)
    → t.finalized ≡ was_finalized (lookup k d)
    → is_finalized i (insert k t d) ≡ is_finalized i d
keep-is_finalized i k t [] h = ground arith
keep-is_finalized i k t ((j, w) ∷ d) h = elim (Bool-cases (nat_beq j k)) [
  | inl found ↦ rw found (ground arith)
  | inr other ↦ rw other (
      ap (λ b. if nat_beq j i && w.finalized then true else b)
        (keep-is_finalized i k t d (rw other at h)))
]

set-is_finalized :
    (i k : ℕ) (t : TaskProjection) (d : Dict ℕ TaskProjection)
    → t.finalized ≡ true
    → is_finalized i (insert k t d) ≡ (nat_beq k i || is_finalized i d)
set-is_finalized i k t [] h = ground arith
set-is_finalized i k t ((j, w) ∷ d) h = elim (Bool-cases (nat_beq j k)) [
  | inl found ↦ rw found (ground (arith, nat_beq_iff j k))
  | inr other ↦ rw other (ground (arith, set-is_finalized i k t d))
]

either : (a b c : Bool) → (a || (b || c)) ≡ ((if b then true else a) || c)
either a b c = ground arith

or_false : (b : Bool) → b ≡ (b || false)
or_false b = ground arith

insert-is_listed :
    (i k : ℕ) (t : TaskProjection) (d : Dict ℕ TaskProjection)
    → is_listed i (insert k t d) ≡ (nat_beq k i || is_listed i d)
insert-is_listed i k t [] = ground arith
insert-is_listed i k t ((j, w) ∷ d) = elim (Bool-cases (nat_beq j k)) [
  | inl found ↦ rw found (ground (arith, nat_beq_iff j k))
  | inr other ↦ rw other (ground (arith, insert-is_listed i k t d))
]

-- The test that an event has this name, and that its task is this one.
module _ (fl : Floats) (readings : Readings fl) where
  abbrev is_ok : ℕ → Outcome ProjectionError ℕ → Bool
  is_ok task_id (ok n) = nat_beq n task_id
  is_ok task_id (err e) = false

  abbrev pub finalizes : ℕ → IndexedChainEvent → Bool
  finalizes task_id e =
      e.event_name == "TaskFinalized" && is_ok task_id (int_argument fl readings "task_id" e)

  abbrev pub creates : ℕ → IndexedChainEvent → Bool
  creates task_id e =
      e.event_name == "TaskCreated" && is_ok task_id (int_argument fl readings "task_id" e)

  -- What one event does to both tests.
  abbrev Effect : ℕ → IndexedChainEvent → State fl readings → State fl readings → Type 0
  Effect i e p q =
      (is_finalized i q.tasks ≡ (finalizes i e || is_finalized i p.tasks))
      × (is_listed i q.tasks ≡ ((creates i e || finalizes i e) || is_listed i p.tasks))

  created-Effect :
      (i k : ℕ) (e : IndexedChainEvent) (p : State fl readings) (t : TaskProjection)
      → (e.event_name == "TaskCreated") ≡ true
      → (e.event_name == "TaskFinalized") ≡ false
      → int_argument fl readings "task_id" e ≡ ok k
      → t.finalized ≡ was_finalized (lookup k p.tasks)
      → Effect i e p (record p { tasks = insert k t p.tasks })
  created-Effect i k e p t c f found flag =
      rw (c, f, found)
        (
          keep-is_finalized i k t p.tasks flag,
          insert-is_listed i k t p.tasks
              ∙ ap (λ b. b || is_listed i p.tasks) (or_false (nat_beq k i)),
        )

  finalized-Effect :
      (i k : ℕ) (e : IndexedChainEvent) (p : State fl readings) (t : TaskProjection)
      → (e.event_name == "TaskCreated") ≡ false
      → (e.event_name == "TaskFinalized") ≡ true
      → int_argument fl readings "task_id" e ≡ ok k
      → t.finalized ≡ true
      → Effect i e p (record p { tasks = insert k t p.tasks })
  finalized-Effect i k e p t c f found flag =
      rw (c, f, found) (set-is_finalized i k t p.tasks flag, insert-is_listed i k t p.tasks)

  -- An event of another name leaves the tasks.
  other-Effect :
      (i : ℕ) (e : IndexedChainEvent) (p q : State fl readings)
      → (e.event_name == "TaskCreated") ≡ false
      → (e.event_name == "TaskFinalized") ≡ false
      → q.tasks ≡ p.tasks
      → Effect i e p q
  other-Effect i e p q c f kept = rw (c, f) (ap (is_finalized i) kept, ap (is_listed i) kept)

  task_created-Effect :
      (i : ℕ) (e : IndexedChainEvent) (p q : State fl readings)
      → (e.event_name == "TaskCreated") ≡ true
      → (e.event_name == "TaskFinalized") ≡ false
      → task_created fl readings e p ≡ ok q
      → Effect i e p q
  unfolding task_created
  task_created-Effect i e p q c f h =
      let (k, hk, h1) = >>=-ok (int_argument fl readings "task_id" e) _ h in
      let (hash, _, h2) = >>=-ok (str_argument fl readings "task_hash" e) _ h1 in
      let (uri, _, h3) = >>=-ok (str_argument fl readings "metadata_uri" e) _ h2 in
      subst (Effect i e p) (ok_inj h3)
        (created-Effect i k e p (created k hash uri (lookup k p.tasks)) c f hk refl)

  task_finalized-Effect :
      (i : ℕ) (e : IndexedChainEvent) (p q : State fl readings)
      → (e.event_name == "TaskCreated") ≡ false
      → (e.event_name == "TaskFinalized") ≡ true
      → task_finalized fl readings e p ≡ ok q
      → Effect i e p q
  unfolding task_finalized
  task_finalized-Effect i e p q c f h =
      let (k, hk, h1) = >>=-ok (int_argument fl readings "task_id" e) _ h in
      let (memo, _, h2) = >>=-ok (str_argument fl readings "memo_hash" e) _ h1 in
      subst (Effect i e p) (ok_inj h2)
        (finalized-Effect i k e p (finalized_with k memo (lookup k p.tasks)) c f hk refl)

  appended-tasks :
      {A : Type 0} (o : Outcome ProjectionError A) (next : A → State fl readings)
      (p q : State fl readings)
      → ((a : A) → (next a).tasks ≡ p.tasks)
      → (o >>= λ a. ok (next a)) ≡ ok q
      → q.tasks ≡ p.tasks
  appended-tasks o next p q kept h =
      let (a, _, same) = >>=-ok o (λ a. ok (next a)) h in
      ap (λ (x : State fl readings). x.tasks) (sym (ok_inj same)) ∙ kept a

  apply_record-tasks :
      (e : IndexedChainEvent) (p q : State fl readings)
      → apply_record fl readings e p ≡ ok q
      → q.tasks ≡ p.tasks
  unfolding apply_record
  apply_record-tasks e p q h = elim (Bool-cases (e.event_name == "ContributionRecorded")) [
    | inl c ↦ appended-tasks (contribution_of fl readings e) _ p q (λ a. refl) (rw c at h)
    | inr nc ↦ elim (Bool-cases (e.event_name == "VerificationRecorded")) [
      | inl v ↦ appended-tasks (verification_of fl readings e) _ p q (λ a. refl) (rw (nc, v) at h)
      | inr nv ↦ elim (Bool-cases (e.event_name == "ReputationRecorded")) [
        | inl r ↦
            appended-tasks (reputation_of fl readings e) _ p q (λ a. refl) (rw (nc, nv, r) at h)
        | inr nr ↦ ap (λ (x : State fl readings). x.tasks) (sym (ok_inj (rw (nc, nv, nr) at h)))
      ]
    ]
  ]

  not_both : (s : String) → (s == "TaskCreated") ≡ true → (s == "TaskFinalized") ≡ false
  not_both s h =
      subst (λ x. (x == "TaskFinalized") ≡ false) (sym ((string_eq.beq_iff s "TaskCreated").0 h))
        refl

  apply_event-Effect :
      (i : ℕ) (e : IndexedChainEvent) (p q : State fl readings)
      → apply_event fl readings e p ≡ ok q
      → Effect i e p q
  unfolding apply_event
  apply_event-Effect i e p q h = elim (Bool-cases (e.event_name == "TaskCreated")) [
    | inl c ↦ task_created-Effect i e p q c (not_both e.event_name c) (rw c at h)
    | inr nc ↦ elim (Bool-cases (e.event_name == "TaskFinalized")) [
      | inl f ↦ task_finalized-Effect i e p q nc f (rw (nc, f) at h)
      | inr nf ↦ other-Effect i e p q nc nf (apply_record-tasks e p q (rw (nc, nf) at h))
    ]
  ]

  apply_events-tasks :
      (i : ℕ) (es : List IndexedChainEvent) (p q : State fl readings)
      → apply_events fl readings es p ≡ ok q
      → (is_finalized i q.tasks ≡ (any (finalizes i) es || is_finalized i p.tasks))
        × (is_listed i q.tasks
            ≡ (any (λ e. creates i e || finalizes i e) es || is_listed i p.tasks))
  unfolding apply_events
  apply_events-tasks i [] p q h = (
    ap (λ (x : State fl readings). is_finalized i x.tasks) (sym (ok_inj h)),
    ap (λ (x : State fl readings). is_listed i x.tasks) (sym (ok_inj h)),
  )
  apply_events-tasks i (e ∷ es) p q h =
      let (r, first, rest) = >>=-ok (apply_event fl readings e p) (apply_events fl readings es) h in
      let (f1, l1) = apply_event-Effect i e p r first in
      let (f2, l2) = apply_events-tasks i es r q rest in
      (
        f2
            ∙ ap (λ b. any (finalizes i) es || b) f1
            ∙ either (any (finalizes i) es) (finalizes i e) (is_finalized i p.tasks),
        l2
            ∙ ap (λ b. any (λ e'. creates i e' || finalizes i e') es || b) l1
            ∙ either (any (λ e'. creates i e' || finalizes i e') es) (creates i e || finalizes i e)
                (is_listed i p.tasks),
      )

  -- When a projection is built, a task stands in it exactly if some event creates or finalizes it,
  -- and it is finalized exactly if some event finalizes it, in whatever order the events came.
  pub build_chain_events_projection-tasks :
      (events : List IndexedChainEvent) (p : State fl readings)
      → build_chain_events_projection fl readings events ≡ ok p
      → (task_id : ℕ)
      → (is_finalized task_id p.tasks ≡ any (finalizes task_id) events)
        × (is_listed task_id p.tasks ≡ any (λ e. creates task_id e || finalizes task_id e) events)
  unfolding build_chain_events_projection
  build_chain_events_projection-tasks events p h i =
      let es = sorted comes_before events in
      let (q, made, same) =
        >>=-ok (apply_events fl readings es (empty_projection fl readings)) _ h in
      let (f, l) = apply_events-tasks i es (empty_projection fl readings) q made in
      let to_p : q_sorted q ≡ p.tasks = ap (λ (x : State fl readings). x.tasks) (ok_inj same) in
      let moved = sorted-Reordered (λ a b. ltb a.0 b.0) q.tasks in
      let events_moved = sorted-Reordered comes_before events in
      (
        ap (is_finalized i) (sym to_p)
            ∙ sym (any-Reordered (λ row. nat_beq row.0 i && row.1.finalized) moved)
            ∙ f
            ∙ sym (or_false _)
            ∙ sym (any-Reordered (finalizes i) events_moved),
        ap (is_listed i) (sym to_p)
            ∙ sym (any-Reordered (λ row. nat_beq row.0 i) moved)
            ∙ l
            ∙ sym (or_false _)
            ∙ sym (any-Reordered (λ e. creates i e || finalizes i e) events_moved),
      )
    where
      q_sorted : State fl readings → Dict ℕ TaskProjection
      q_sorted q = sorted (λ a b. ltb a.0 b.0) q.tasks
