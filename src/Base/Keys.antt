-- ===== src/Base/Keys.antt =====
-- Equality as an interface, and Python's sets of comparable values as lists.
use Prim.Native.Nat.{ℕ, suc, ◌≤◌}
use Prim.Native.String.{String}
use mathlib.Core.Path.{◌≡◌, refl, ap, subst}
use mathlib.Core.Logic.{◌↔◌, ◌⊎◌, inl, inr}
use mathlib.Core.Bool.{Bool, true, false, ◌||◌}
use mathlib.Core.List.{List, [], ◌∷◌, ◌++◌}
use native.Mathlib.Omega.{arith}
use text.Mathlib.Text.{◌==◌ as str_eq}
use text.Mathlib.TextEquality.{eq_iff}
use signal_count.Base.Tests.{nat_beq, nat_beq_iff, if◌then◌else◌, Bool-cases}
use signal_count.Base.Lists.{length}

pub record Eq {ℓ} (A : Type ℓ) : Type ℓ where
  -- `a == b` of Python, and what is relied on.
  pub beq : (x y : A) → Bool
  pub beq_iff : (x y : A) → (beq x y ≡ true) ↔ (x ≡ y)

abbrev pub ◌==◌ {κ} : {K : Type κ} ⦃key : Eq K⦄ → K → K → Bool
◌==◌ ⦃key⦄ = key.beq

infix 50 ◌==◌
-- Texts and numbers are keys.
instance abbrev pub string_eq : Eq String
string_eq = record { beq_iff = eq_iff; beq = str_eq }

instance abbrev pub nat_eq : Eq ℕ
nat_eq = record { beq_iff = nat_beq_iff; beq = nat_beq }

-- A tuple of two texts is a key.
abbrev pub pair_beq : String × String → String × String → Bool
pair_beq p q = if p.0 == q.0 then p.1 == q.1 else false

pub pair_beq_iff : (p q : String × String) → (pair_beq p q ≡ true) ↔ (p ≡ q)
pair_beq_iff p q = (
  λ h. parts (string_eq.beq p.0 q.0) refl h,
  λ e.
      subst (λ r. pair_beq p r ≡ true) e
        (rw ((string_eq.beq_iff p.0 p.0).1 refl, (string_eq.beq_iff p.1 p.1).1 refl) refl),
)
  where
    parts : (b : Bool) → string_eq.beq p.0 q.0 ≡ b → pair_beq p q ≡ true → p ≡ q
    parts true same h =
        let first = (string_eq.beq_iff p.0 q.0).0 same in
        let second = (string_eq.beq_iff p.1 q.1).0 (rw same at h) in λ i. (first i, second i)
    parts false other h = let bad = rw other at h in cc

instance abbrev pub pair_eq : Eq (String × String)
pair_eq = record { beq_iff = pair_beq_iff; beq = pair_beq }

module _ {ℓ} {A : Type ℓ} ⦃e : Eq A⦄ where
  pub beq_refl : (a : A) → (a == a) ≡ true
  beq_refl a = (e.beq_iff a a).1 refl

  -- `a in xs`
  abbrev pub is_mem : A → List A → Bool
  is_mem a [] = false
  is_mem a (x ∷ xs) = if x == a then true else is_mem a xs

  -- `set(xs)`: each value once.
  abbrev pub to_set : List A → List A
  to_set [] = []
  to_set (x ∷ xs) = if is_mem x xs then to_set xs else x ∷ to_set xs

  abbrev pub count : A → List A → ℕ
  count a [] = 0
  count a (x ∷ xs) = if x == a then suc (count a xs) else count a xs

  -- No value stands twice.
  abbrev pub IsDistinct : List A → Type 0
  IsDistinct [] = Unit
  IsDistinct (x ∷ xs) = (is_mem x xs ≡ false) × IsDistinct xs

  pub is_mem-cons :
      (a x : A) (xs : List A) → is_mem a (x ∷ xs) ≡ true → (x ≡ a) ⊎ (is_mem a xs ≡ true)
  is_mem-cons a x xs h = elim (Bool-cases (x == a)) [
    | inl same ↦ inl ((e.beq_iff x a).0 same)
    | inr other ↦ inr (rw other at h)
  ]

  pub is_mem-append : (a : A) (xs ys : List A) → is_mem a (xs ++ ys) ≡ (is_mem a xs || is_mem a ys)
  is_mem-append a [] ys = refl
  is_mem-append a (x ∷ xs) ys = ground (arith, is_mem-append a xs ys)

  pub IsDistinct-snoc :
      (xs : List A) (a : A) → IsDistinct xs → is_mem a xs ≡ false → IsDistinct (xs ++ a ∷ [])
  IsDistinct-snoc [] a h m = (refl, tt)
  IsDistinct-snoc (x ∷ xs) a h m =
      ground
        (arith, IsDistinct-snoc xs a h.1, is_mem-append x xs (a ∷ []), e.beq_iff a x, e.beq_iff x a)

  pub length-to_set-le : (xs : List A) → length (to_set xs) ≤ length xs
  length-to_set-le [] = omega arith
  length-to_set-le (x ∷ xs) = ground (arith, length-to_set-le xs)

  -- `len(set(xs)) == len(xs)` says that no value stands twice.
  pub to_set-IsDistinct : (xs : List A) → (length (to_set xs) ≡ length xs) ↔ IsDistinct xs
  to_set-IsDistinct [] = (λ _. tt, λ _. refl)
  to_set-IsDistinct (x ∷ xs) = ground (arith, to_set-IsDistinct xs, length-to_set-le xs)

  -- One occurrence less.
  abbrev drop_one : A → List A → List A
  drop_one a [] = []
  drop_one a (x ∷ xs) = if x == a then xs else x ∷ drop_one a xs

  length-drop_one :
      (a : A) (xs : List A) → is_mem a xs ≡ true → suc (length (drop_one a xs)) ≡ length xs
  length-drop_one a [] h = ground arith
  length-drop_one a (x ∷ xs) h = ground (arith, length-drop_one a xs)

  is_mem-drop_one :
      (a b : A) (xs : List A)
      → (a == b) ≡ false
      → is_mem b xs ≡ true
      → is_mem b (drop_one a xs) ≡ true
  is_mem-drop_one a b [] n h = h
  is_mem-drop_one a b (x ∷ xs) n h =
      ground (arith, is_mem-drop_one a b xs n, e.beq_iff x a, e.beq_iff x b, e.beq_iff a b)

  pub ne_of_mem :
      (a b : A) (xs : List A) → is_mem a xs ≡ false → is_mem b xs ≡ true → (a == b) ≡ false
  ne_of_mem a b xs m h = elim (Bool-cases (a == b)) [
    | inl same ↦ let p = (e.beq_iff a b).0 same in cc (ap (λ x. is_mem x xs) p)
    | inr other ↦ other
  ]

  -- Distinct values that all stand in another list are no more than it has.
  pub length-le_of_subset :
      (xs ys : List A)
      → IsDistinct xs
      → ((a : A) → is_mem a xs ≡ true → is_mem a ys ≡ true)
      → length xs ≤ length ys
  length-le_of_subset [] ys d sub = omega arith
  length-le_of_subset (x ∷ xs) ys d sub =
      let here : is_mem x (x ∷ xs) ≡ true = rw (beq_refl x) refl in
      let rest =
        length-le_of_subset xs (drop_one x ys) d.1
          (λ a m. let n = ne_of_mem x a xs d.0 m in is_mem-drop_one x a ys n (sub a (rw n m))) in
      omega (arith, rest, length-drop_one x ys (sub x here))

  pub is_mem-to_set : (a : A) (xs : List A) → is_mem a (to_set xs) ≡ is_mem a xs
  is_mem-to_set a [] = refl
  is_mem-to_set a (x ∷ xs) = ground (arith, is_mem-to_set a xs, e.beq_iff x a)
