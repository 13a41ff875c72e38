-- ===== src/Store/Jobs/Latest.antt =====
-- The latest job of app/store/jobs.py.
use signal_count.Base.{
  String, ◌≡◌, refl, ap, subst, ◌⊎◌, inl, inr, true, false, Option, none, some, List, [], ◌∷◌, All,
  Bool-cases,
}
use signal_count.Base.Text.{text_lt_trans, text_lt_compare}
use signal_count.Base.Outcome.{ok}
use signal_count.Store.Jobs.{
  JobRow, JobLibrary, time_lt, is_earlier, latest_from, job_if, get_latest_job,
}

time_lt_trans :
    (a b c : Option String) → time_lt a b ≡ true → time_lt b c ≡ true → time_lt a c ≡ true
time_lt_trans none none c p q = cc
time_lt_trans none (some b) none p q = cc
time_lt_trans none (some b) (some c) p q = refl
time_lt_trans (some a) none c p q = cc
time_lt_trans (some a) (some b) none p q = cc
time_lt_trans (some a) (some b) (some c) p q = text_lt_trans a b c p q

time_lt_compare :
    (a b c : Option String) → time_lt a c ≡ true → (time_lt a b ≡ true) ⊎ (time_lt b c ≡ true)
time_lt_compare none none none p = cc
time_lt_compare none none (some c) p = inr refl
time_lt_compare none (some b) c p = inl refl
time_lt_compare (some a) b none p = cc
time_lt_compare (some a) none (some c) p = inr refl
time_lt_compare (some a) (some b) (some c) p = text_lt_compare a b c p

module _ (lib : JobLibrary) where
  -- A row that is not earlier than any other, and later than those that stand behind it.
  abbrev pub IsLatest : JobRow → List JobRow → Type 0
  IsLatest r [] = ⊥
  IsLatest r (x ∷ rows) =
      ((x ≡ r) × All (λ z. is_earlier lib z r ≡ true) rows)
      ⊎ ((is_earlier lib r x ≡ false) × IsLatest r rows)

  earlier_trans :
      (a b c : JobRow)
      → is_earlier lib a b ≡ true
      → is_earlier lib b c ≡ true
      → is_earlier lib a c ≡ true
  unfolding is_earlier
  earlier_trans a b c p q =
      time_lt_trans (lib.datetime a.created_at) (lib.datetime b.created_at)
        (lib.datetime c.created_at) p q

  -- What is not earlier than a row that a third is earlier than, is not earlier than the third.
  not_earlier_later :
      (r x best : JobRow)
      → is_earlier lib x best ≡ true
      → is_earlier lib r best ≡ false
      → is_earlier lib r x ≡ false
  not_earlier_later r x best p q = elim (Bool-cases (is_earlier lib r x)) [
    | inl back ↦ let all = earlier_trans r x best back p in cc
    | inr apart ↦ apart
  ]

  not_earlier_trans :
      (r x best : JobRow)
      → is_earlier lib x best ≡ false
      → is_earlier lib r x ≡ false
      → is_earlier lib r best ≡ false
  unfolding is_earlier
  not_earlier_trans r x best p q = elim (Bool-cases (is_earlier lib r best)) [
    | inl back ↦
        elim (time_lt_compare (lib.datetime r.created_at) (lib.datetime x.created_at)
          (lib.datetime best.created_at) back) [ inl first ↦ cc | inr second ↦ cc ]
    | inr apart ↦ apart
  ]

  -- An older row that is earlier than the best changes nothing.
  IsLatest-kept :
      (r best x : JobRow) (rows : List JobRow)
      → is_earlier lib x best ≡ true
      → IsLatest r (best ∷ rows)
      → IsLatest r (best ∷ x ∷ rows)
  IsLatest-kept r best x rows h (inl (same, all)) =
      inl (same, (subst (λ b. is_earlier lib x b ≡ true) same h, all))
  IsLatest-kept r best x rows h (inr (apart, later)) =
      inr (apart, inr (not_earlier_later r x best h apart, later))

  IsLatest-replaced :
      (r best x : JobRow) (rows : List JobRow)
      → is_earlier lib x best ≡ false
      → IsLatest r (x ∷ rows)
      → IsLatest r (best ∷ x ∷ rows)
  IsLatest-replaced r best x rows h (inl (same, all)) =
      inr (subst (λ b. is_earlier lib b best ≡ false) same h, inl (same, all))
  IsLatest-replaced r best x rows h (inr (apart, later)) =
      inr (not_earlier_trans r x best h apart, inr (apart, later))

  latest_from-IsLatest :
      (best : JobRow) (rows : List JobRow)
      → (r : JobRow) × (latest_from lib (some best) rows ≡ some r) × IsLatest r (best ∷ rows)
  unfolding latest_from
  latest_from-IsLatest best [] = (best, refl, inl (refl, tt))
  latest_from-IsLatest best (x ∷ rows) = elim (Bool-cases (is_earlier lib x best)) [
    | inl older ↦
        let (r, found, latest) = latest_from-IsLatest best rows in
        (r, rw older found, IsLatest-kept r best x rows older latest)
    | inr newer ↦
        let (r, found, latest) = latest_from-IsLatest x rows in
        (r, rw newer found, IsLatest-replaced r best x rows newer latest)
  ]

  -- The latest job of a table that has rows is that of a row which no other is later than, and which
  -- those of its time stand before; an empty table has none.
  pub get_latest_job-IsLatest :
      (rows : List JobRow)
      → ((rows ≡ []) × (get_latest_job lib rows ≡ ok none))
        ⊎ ((r : JobRow) × (get_latest_job lib rows ≡ job_if lib (some r)) × IsLatest r rows)
  unfolding get_latest_job latest_from
  get_latest_job-IsLatest [] = inl (refl, refl)
  get_latest_job-IsLatest (row ∷ rows) =
      let (r, found, latest) = latest_from-IsLatest row rows in
      inr (r, ap (job_if lib) found, latest)
