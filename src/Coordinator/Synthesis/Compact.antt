-- ===== src/Coordinator/Synthesis/Compact.antt =====
-- What `_compact_unique` of app/coordinator/synthesis.py keeps of the texts that it gets.
use signal_count.Base.{
  ℕ, zero, suc, ◌≤◌, ◌<◌, String, ◌≡◌, refl, ap, ◌∙◌, sym, subst, inl, inr, true, false, not, ◌&&◌,
  ◌||◌, List, [], ◌∷◌, map, All, All-append, length, is_mem, is_mem-append, IsDistinct,
  IsDistinct-snoc, ◌==◌, string_eq, if◌then◌else◌, Bool-cases, arith,
}
use signal_count.Base.Text.{is_empty, strip}
use signal_count.Coordinator.Memo.{take, compacted_with, compacted_from, compact_unique}

-- Texts that are distinct and not empty.
abbrev pub IsCompact : List String → Type 0
IsCompact items = IsDistinct items × All (λ t. is_empty t ≡ false) items

compacted_with-IsCompact :
    (text : String) (items : List String) → IsCompact items → IsCompact (compacted_with text items)
compacted_with-IsCompact text items h = elim (Bool-cases (is_empty text)) [
  | inl blank ↦ rw blank h
  | inr given ↦ elim (Bool-cases (is_mem text items)) [
    | inl seen ↦ rw (given, seen) h
    | inr fresh ↦
        rw (given, fresh)
          (
            IsDistinct-snoc items text h.0 fresh,
            All-append (λ t. is_empty t ≡ false) items text h.1 given,
          )
  ]
]

compacted_from-IsCompact :
    (items values : List String) → IsCompact items → IsCompact (compacted_from items values)
unfolding compacted_from
compacted_from-IsCompact items [] h = h
compacted_from-IsCompact items (v ∷ values) h =
    compacted_from-IsCompact (compacted_with (strip v) items) values
      (compacted_with-IsCompact (strip v) items h)

is_mem-take :
    (a : String) (n : ℕ) (xs : List String) → is_mem a (take n xs) ≡ true → is_mem a xs ≡ true
is_mem-take a zero xs h = cc
is_mem-take a (suc n) [] h = h
is_mem-take a (suc n) (x ∷ xs) h = ground (arith, is_mem-take a n xs)

take-IsCompact : (n : ℕ) (xs : List String) → IsCompact xs → IsCompact (take n xs)
take-IsCompact zero xs h = (tt, tt)
take-IsCompact (suc n) [] h = h
take-IsCompact (suc n) (x ∷ xs) ((alone, distinct), (given, all)) =
    let (rest, kept) = take-IsCompact n xs (distinct, all) in ((absent, rest), (given, kept))
  where
    absent : is_mem x (take n xs) ≡ false
    absent = ground (arith, is_mem-take x n xs)

length-take : (n : ℕ) (xs : List String) → length (take n xs) ≤ n
length-take zero xs = omega arith
length-take (suc n) [] = omega arith
length-take (suc n) (x ∷ xs) = let rest = length-take n xs in omega arith

compacted_with-is_mem :
    (a text : String) (items : List String)
    → is_mem a (compacted_with text items) ≡ (is_mem a items || (not (is_empty text) && text == a))
compacted_with-is_mem a text items = elim (Bool-cases (is_empty text)) [
  | inl blank ↦ rw blank (ground arith)
  | inr given ↦ elim (Bool-cases (is_mem text items)) [
    | inl seen ↦ rw (given, seen) (seen_already seen)
    | inr fresh ↦ rw (given, fresh) (is_mem-append a items (text ∷ []) ∙ ground arith)
  ]
]
  where
    seen_already : is_mem text items ≡ true → is_mem a items ≡ (is_mem a items || text == a)
    seen_already seen = elim (Bool-cases (text == a)) [
      | inl same ↦ rw same (
          subst (λ t. is_mem t items ≡ (is_mem t items || true)) ((string_eq.beq_iff text a).0 same)
            (rw seen refl))
      | inr other ↦ rw other (ground arith)
    ]

-- Every text that is not blank is kept, and nothing else.
compacted_from-is_mem :
    (a : String) (items values : List String)
    → is_empty a ≡ false
    → is_mem a (compacted_from items values) ≡ (is_mem a items || is_mem a (map strip values))
unfolding compacted_from
compacted_from-is_mem a items [] given = ground arith
compacted_from-is_mem a items (v ∷ values) given =
    compacted_from-is_mem a (compacted_with (strip v) items) values given
    ∙ rw (compacted_with-is_mem a (strip v) items) (by_text (strip v))
  where
    by_text :
        (text : String)
        → ((is_mem a items || (not (is_empty text) && text == a)) || is_mem a (map strip values))
          ≡ (is_mem a items || (if text == a then true else is_mem a (map strip values)))
    by_text text = elim (Bool-cases (text == a)) [
      | inl same ↦
          let blank = ap is_empty ((string_eq.beq_iff text a).0 same) ∙ given in
          rw (same, blank) (ground arith)
      | inr other ↦ rw other (ground arith)
    ]

is_mem-All :
    (a : String) (items : List String)
    → All (λ t. is_empty t ≡ false) items
    → is_mem a items ≡ true
    → is_empty a ≡ false
is_mem-All a [] all h = cc
is_mem-All a (x ∷ xs) all h = elim (Bool-cases (x == a)) [
  | inl same ↦ subst (λ t. is_empty t ≡ false) ((string_eq.beq_iff x a).0 same) all.0
  | inr other ↦ is_mem-All a xs all.1 (rw other at h)
]

-- What is cut short to fewer than allowed was not cut.
take_short : (n : ℕ) (xs : List String) → length (take n xs) < n → take n xs ≡ xs
take_short zero xs h = let no : ⊥ = omega arith in elim no [ ]
take_short (suc n) [] h = refl
take_short (suc n) (x ∷ xs) h = ap (λ ys. x ∷ ys) (take_short n xs (omega arith))

-- Of any texts at most eight are kept. They are distinct, not empty, and stripped texts of those given;
-- if there are fewer than eight, every text that is not blank is kept.
pub compact_unique-IsCompact :
    (values : List String)
    → (length (compact_unique values) ≤ 8)
      × IsCompact (compact_unique values)
      × ((a : String)
          → is_mem a (compact_unique values) ≡ true
          → is_mem a (map strip values) ≡ true)
      × (length (compact_unique values) < 8
          → (a : String) → is_empty a ≡ false
          → is_mem a (map strip values) ≡ true
          → is_mem a (compact_unique values) ≡ true)
unfolding compact_unique
compact_unique-IsCompact values =
    let items = compacted_from [] values in
    let compact = compacted_from-IsCompact [] values (tt, tt) in
    (
      length-take 8 items,
      take-IsCompact 8 items compact,
      λ a h.
          let kept = is_mem-take a 8 items h in
          sym (compacted_from-is_mem a [] values (is_mem-All a items compact.1 kept)) ∙ kept,
      λ short a given h.
          ap (is_mem a) (take_short 8 items short) ∙ compacted_from-is_mem a [] values given ∙ h,
    )
