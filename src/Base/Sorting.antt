-- ===== src/Base/Sorting.antt =====
-- Python's `sorted` by a key, and lists that differ in their order only.
use signal_count.Base.Tests.{if◌then◌else◌, Bool-cases}
use signal_count.Base.Lists.{All, length}
use Prim.Native.Nat.{ℕ, suc, ◌+◌}
use mathlib.Core.Path.{◌≡◌, refl, sym, ap, ◌∙◌}
use mathlib.Core.Logic.{◌⊎◌, inl, inr}
use mathlib.Core.Bool.{Bool, true, false}
use mathlib.Core.List.{List, [], ◌∷◌}
use native.Mathlib.Omega.{arith}

-- The same items in another order.
pub data Reordered {ℓ} {A : Type ℓ} : List A → List A → Type ℓ where
  same : (xs : List A) → Reordered xs xs
  keep : (x : A) {xs ys : List A} → Reordered xs ys → Reordered (x ∷ xs) (x ∷ ys)
  swap : (x y : A) (xs : List A) → Reordered (x ∷ y ∷ xs) (y ∷ x ∷ xs)
  both : {xs ys zs : List A} → Reordered xs ys → Reordered ys zs → Reordered xs zs

pub All-Reordered {ℓ κ} :
    {A : Type ℓ} (P : A → Type κ) {xs ys : List A} → Reordered xs ys → All P xs → All P ys
All-Reordered P (same xs) h = h
All-Reordered P (keep y r) h = (h.0, All-Reordered P r h.1)
All-Reordered P (swap y z xs) h = (h.1.0, (h.0, h.1.1))
All-Reordered P (both r q) h = All-Reordered P q (All-Reordered P r h)

module _ {ℓ} {A : Type ℓ} (before : A → A → Bool) where
  -- Stable: an item goes before the first that is not smaller.
  abbrev pub place : A → List A → List A
  place x [] = x ∷ []
  place x (y ∷ ys) = if before y x then y ∷ place x ys else x ∷ y ∷ ys

  -- `sorted(xs)`
  abbrev pub sorted : List A → List A
  sorted [] = []
  sorted (x ∷ xs) = place x (sorted xs)

  pub place-Reordered : (x : A) (ys : List A) → Reordered (x ∷ ys) (place x ys)
  place-Reordered x [] = same (x ∷ [])
  place-Reordered x (y ∷ ys) = elim (Bool-cases (before y x)) [
    | inl less ↦ rw less (both (swap x y ys) (keep y (place-Reordered x ys)))
    | inr more ↦ rw more (same (x ∷ y ∷ ys))
  ]

  pub sorted-Reordered : (xs : List A) → Reordered xs (sorted xs)
  sorted-Reordered [] = same []
  sorted-Reordered (x ∷ xs) = both (keep x (sorted-Reordered xs)) (place-Reordered x (sorted xs))

  -- One of two items comes first.
  abbrev pub Apart : A → A → Type 0
  Apart x y =
      ((before x y ≡ true) × (before y x ≡ false)) ⊎ ((before x y ≡ false) × (before y x ≡ true))

  -- Any two items of a list are apart.
  abbrev pub IsApart : List A → Type ℓ
  IsApart [] = Unit
  IsApart (x ∷ xs) = All (λ y. Apart x y) xs × IsApart xs

  Apart-sym : (x y : A) → Apart x y → Apart y x
  Apart-sym x y (inl h) = inr (h.1, h.0)
  Apart-sym x y (inr h) = inl (h.1, h.0)

  module _ (trans : (x y z : A) → before x y ≡ true → before y z ≡ true → before x z ≡ true) where
    place_ordered :
        (x y : A) (zs : List A)
        → before x y ≡ true
        → before y x ≡ false
        → place x (place y zs) ≡ place y (place x zs)
    place_ordered x y [] less more = rw (less, more) refl
    place_ordered x y (z ∷ zs) less more = elim (Bool-cases (before z y)) [
      | inl zy ↦ elim (Bool-cases (before z x)) [
        | inl zx ↦ rw (zy, zx, zy) (ap (◌∷◌ z) (place_ordered x y zs less more))
        | inr xz ↦ rw (zy, xz, less, zy) refl
      ]
      | inr yz ↦ elim (Bool-cases (before z x)) [
        | inl zx ↦ let bad = trans z x y zx less in cc
        | inr xz ↦ rw (yz, xz, more, less, yz) refl
      ]
    ]

    place_comm : (x y : A) (zs : List A) → Apart x y → place x (place y zs) ≡ place y (place x zs)
    place_comm x y zs (inl h) = place_ordered x y zs h.0 h.1
    place_comm x y zs (inr h) = sym (place_ordered y x zs h.1 h.0)

    IsApart-Reordered : {xs ys : List A} → Reordered xs ys → IsApart xs → IsApart ys
    IsApart-Reordered (same xs) h = h
    IsApart-Reordered (keep x r) h = (All-Reordered (Apart x) r h.0, IsApart-Reordered r h.1)
    IsApart-Reordered (swap x y xs) h = ((Apart-sym x y h.0.0, h.1.0), (h.0.1, h.1.1))
    IsApart-Reordered (both r q) h = IsApart-Reordered q (IsApart-Reordered r h)

    -- Items that are apart sort to one list, in whatever order they come.
    pub sorted_unique : {xs ys : List A} → Reordered xs ys → IsApart xs → sorted xs ≡ sorted ys
    sorted_unique (same xs) h = refl
    sorted_unique (keep x r) h = ap (place x) (sorted_unique r h.1)
    sorted_unique (swap x y xs) h = place_comm x y (sorted xs) h.0.0
    sorted_unique (both r q) h = sorted_unique r h ∙ sorted_unique q (IsApart-Reordered r h)

  -- No item comes before the one that stands ahead of it.
  abbrev pub IsSorted : List A → Type 0
  IsSorted [] = Unit
  IsSorted (x ∷ []) = Unit
  IsSorted (x ∷ y ∷ ys) = (before y x ≡ false) × IsSorted (y ∷ ys)

  -- What is sorted stays as it is.
  pub sorted_idem : (xs : List A) → IsSorted xs → sorted xs ≡ xs
  sorted_idem [] h = refl
  sorted_idem (x ∷ []) h = refl
  sorted_idem (x ∷ y ∷ ys) h = ap (place x) (sorted_idem (y ∷ ys) h.1) ∙ rw h.0 refl

  module _ (asym : (x y : A) → before x y ≡ true → before y x ≡ false) where
    place-IsSorted : (x : A) (ys : List A) → IsSorted ys → IsSorted (place x ys)
    place-IsSorted x [] h = tt
    place-IsSorted x (y ∷ []) h = elim (Bool-cases (before y x)) [
      | inl less ↦ rw less (asym y x less, tt)
      | inr more ↦ rw more (more, tt)
    ]
    place-IsSorted x (y ∷ z ∷ zs) h = elim (Bool-cases (before y x)) [
      | inr more ↦ rw more (more, h)
      | inl less ↦ rw less (below (asym y x less) (place-IsSorted x (z ∷ zs) h.1) (before z x) refl)
    ]
      where
        below :
            before x y ≡ false
            → IsSorted (place x (z ∷ zs))
            → (b : Bool) → before z x ≡ b
            → IsSorted (y ∷ place x (z ∷ zs))
        below apart rest true zx = rw zx (h.0, rw zx at rest)
        below apart rest false xz = rw xz (apart, (xz, h.1))

    pub sorted-IsSorted : (xs : List A) → IsSorted (sorted xs)
    sorted-IsSorted [] = tt
    sorted-IsSorted (x ∷ xs) = place-IsSorted x (sorted xs) (sorted-IsSorted xs)

-- A test that some item passes.
abbrev pub any {ℓ} : {A : Type ℓ} → (A → Bool) → List A → Bool
any test [] = false
any test (x ∷ xs) = if test x then true else any test xs

pub any-Reordered {ℓ} :
    {A : Type ℓ} (test : A → Bool) {xs ys : List A} → Reordered xs ys → any test xs ≡ any test ys
any-Reordered test (same xs) = refl
any-Reordered test (keep x r) = ap (λ b. if test x then true else b) (any-Reordered test r)
any-Reordered test (swap x y xs) = ground arith
any-Reordered test (both r q) = any-Reordered test r ∙ any-Reordered test q

-- The sum of a number of each item.
abbrev pub total {ℓ} : {A : Type ℓ} → (A → ℕ) → List A → ℕ
total f [] = 0
total f (x ∷ xs) = f x + total f xs

pub total-Reordered {ℓ} :
    {A : Type ℓ} (f : A → ℕ) {xs ys : List A} → Reordered xs ys → total f xs ≡ total f ys
total-Reordered f (same xs) = refl
total-Reordered f (keep x r) = ap (λ n. f x + n) (total-Reordered f r)
total-Reordered f (swap x y xs) = omega arith
total-Reordered f (both r q) = total-Reordered f r ∙ total-Reordered f q

pub length-Reordered {ℓ} : {A : Type ℓ} {xs ys : List A} → Reordered xs ys → length xs ≡ length ys
length-Reordered (same xs) = refl
length-Reordered (keep x r) = ap suc (length-Reordered r)
length-Reordered (swap x y xs) = refl
length-Reordered (both r q) = length-Reordered r ∙ length-Reordered q
