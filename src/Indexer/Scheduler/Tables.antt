-- ===== src/Indexer/Scheduler/Tables.antt =====
-- What the statements of app/store/jobs.py do to the rows that the indexer reads.
use signal_count.Base.{
  ℕ, zero, suc, ◌+◌, ◌≡◌, ◌⊎◌, ◌↔◌, inl, inr, refl, subst, sym, ◌∙◌, String, Bool, true, false,
  ◌&&◌, none, some, List, [], ◌∷◌, select, leb, ltb, nat_beq, nat_beq_iff, string_eq, nat_eq, arith,
  Bool-cases, if◌then◌else◌,
}
use signal_count.Base.Dict.{Dict, lookup, insert, lookup-insert}
use signal_count.Indexer.Events.{IndexedChainEvent, EventId, event_id}
use signal_count.Store.Chain.{same_id, has_id, insert_or_ignore, insert_events, insert_blocks}
use signal_count.Indexer.Scheduler.View.{IsIn, IsIn-append, View, headers_from}

pub lookup-select :
    (test : ℕ → Bool) (k : ℕ) (rows : Dict ℕ String)
    → lookup k (select (λ row. test row.0) rows) ≡ (if test k then lookup k rows else none)
lookup-select test k [] = ground arith
lookup-select test k ((j, h) ∷ rows) = elim (Bool-cases (nat_beq j k)) [
  | inl same ↦ let e = (nat_beq_iff j k).0 same in rw e (ground (arith, lookup-select test k rows))
  | inr other ↦ ground (arith, lookup-select test k rows, other)
]

pub lookup-insert_blocks :
    (v : View) (a k n : ℕ) (rows : Dict ℕ String)
    → lookup n (insert_blocks (headers_from v a k) rows)
      ≡ (if leb a n && ltb n (a + k) then some (v.hash n) else lookup n rows)
unfolding insert_blocks
lookup-insert_blocks v a zero n rows = ground arith
lookup-insert_blocks v a (suc k) n rows = elim (Bool-cases (nat_beq a n)) [
  | inl same ↦
      let e = (nat_beq_iff a n).0 same in
      rw e (
        ground (
          arith,
          lookup-insert_blocks v (suc n) k n (insert n (v.hash n) rows),
          lookup-insert n n (v.hash n) rows,
        ))
  | inr other ↦ ground (
    arith,
    lookup-insert_blocks v (suc a) k n (insert a (v.hash a) rows),
    lookup-insert a n (v.hash a) rows,
    other,
  )
]

pub IsIn-select :
    (test : IndexedChainEvent → Bool) (e : IndexedChainEvent) (rows : List IndexedChainEvent)
    → IsIn e (select test rows) ↔ (IsIn e rows × (test e ≡ true))
IsIn-select test e [] = (λ m. absurd m, λ m. absurd m.0)
IsIn-select test e (x ∷ rows) =
    let ih = IsIn-select test e rows in
    elim (Bool-cases (test x)) [
      | inl keep ↦ rw keep (
        λ m. elim m [
          | inl here ↦ (inl here, subst (λ y. test y ≡ true) (sym here) keep)
          | inr later ↦ (inr (ih.0 later).0, (ih.0 later).1)
        ],
        λ (m, t). elim m [ inl here ↦ inl here | inr later ↦ inr (ih.1 (later, t)) ],
      )
      | inr drop ↦ rw drop (
        λ m. (inr (ih.0 m).0, (ih.0 m).1),
        λ (m, t). elim m [
          | inl here ↦ absurd (different x drop (subst (λ y. test y ≡ true) here t))
          | inr later ↦ ih.1 (later, t)
        ],
      )
    ]
  where
    different : (y : IndexedChainEvent) → test y ≡ false → test y ≡ true → ⊥
    different y f t = cc

same_id_iff : (a b : EventId) → (same_id a b ≡ true) ↔ (a ≡ b)
same_id_iff a b = (
  λ h.
      let p : a.0 ≡ b.0 = (string_eq.beq_iff a.0 b.0).0 (ground arith) in
      let q : a.1 ≡ b.1 = ground arith in λ i. (p i, q i),
  λ e.
      subst (λ c. same_id a c ≡ true) e
        (rw ((string_eq.beq_iff a.0 a.0).1 refl, (nat_beq_iff a.1 a.1).1 refl) refl),
)

has_id_found :
    (i : EventId) (rows : List IndexedChainEvent)
    → has_id i rows ≡ true
    → (e : IndexedChainEvent) × IsIn e rows × (event_id e ≡ i)
has_id_found i [] h = cc
has_id_found i (x ∷ rows) h = elim (Bool-cases (same_id (event_id x) i)) [
  | inl here ↦ (x, inl refl, (same_id_iff (event_id x) i).0 here)
  | inr other ↦ let (e, m, p) = has_id_found i rows (rw other at h) in (e, inr m, p)
]

-- Rows that come from one family of events with unique ids.
module _ (P : IndexedChainEvent → Type 0)
    (unique : (d e : IndexedChainEvent) → P d → P e → event_id d ≡ event_id e → d ≡ e) where
  IsIn-insert_or_ignore :
      (e x : IndexedChainEvent) (rows : List IndexedChainEvent)
      → ((d : IndexedChainEvent) → IsIn d rows → P d)
      → P x
      → IsIn e (insert_or_ignore rows x) ↔ (IsIn e rows ⊎ (e ≡ x))
  IsIn-insert_or_ignore e x rows all px = elim (Bool-cases (has_id (event_id x) rows)) [
    | inl old ↦
        let (d, m, p) = has_id_found (event_id x) rows old in
        let same = unique d x (all d m) px p in
        rw old (
          λ n. inl n,
          λ n. elim n [ inl kept ↦ kept | inr here ↦ subst (λ y. IsIn y rows) (same ∙ sym here) m ],
        )
    | inr new ↦
        let split = IsIn-append e rows (x ∷ []) in
        rw new (
          λ n. elim (split.0 n) [
            | inl kept ↦ inl kept
            | inr last ↦ elim last [ inl here ↦ inr here | inr nowhere ↦ absurd nowhere ]
          ],
          λ n. elim n [ inl kept ↦ split.1 (inl kept) | inr here ↦ split.1 (inr (inl here)) ],
        )
  ]

  pub IsIn-insert_events :
      (e : IndexedChainEvent) (rows es : List IndexedChainEvent)
      → ((d : IndexedChainEvent) → IsIn d rows → P d)
      → ((d : IndexedChainEvent) → IsIn d es → P d)
      → IsIn e (insert_events rows es) ↔ (IsIn e rows ⊎ IsIn e es)
  unfolding insert_events
  IsIn-insert_events e rows [] all new = (λ m. inl m, λ m. elim m [ inl n ↦ n | inr n ↦ absurd n ])
  IsIn-insert_events e rows (x ∷ es) all new =
      let px = new x (inl refl) in
      let one = λ (d : IndexedChainEvent). IsIn-insert_or_ignore d x rows all px in
      let grown : (d : IndexedChainEvent) → IsIn d (insert_or_ignore rows x) → P d =
        λ d m. elim ((one d).0 m) [ inl kept ↦ all d kept | inr here ↦ subst P (sym here) px ] in
      let ih = IsIn-insert_events e (insert_or_ignore rows x) es grown (λ d m. new d (inr m)) in
      (
        λ m. elim (ih.0 m) [
          | inr later ↦ inr (inr later)
          | inl here ↦ elim ((one e).0 here) [ inl kept ↦ inl kept | inr x' ↦ inr (inl x') ]
        ],
        λ m. ih.1 (elim m [
          | inl kept ↦ inl ((one e).1 (inl kept))
          | inr n ↦ elim n [ inl here ↦ inl ((one e).1 (inr here)) | inr later ↦ inr later ]
        ]),
      )
