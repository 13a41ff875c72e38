-- ===== src/Base/Json.antt =====
-- JSON values as Python reads them: a natural number, or any other number by its text. Of a dict
-- the first entry of a key is read.
use Prim.Native.String.{String}
use mathlib.Core.Path.{◌≡◌, refl, ◌∙◌}
use mathlib.Core.Logic.{inl, inr}
use mathlib.Core.Bool.{Bool}
use mathlib.Core.List.{List, [], ◌∷◌, map}
use mathlib.Core.Option.{Option, none, some}
use Prim.Native.Nat.{ℕ}
use native.Mathlib.Omega.{arith}
use signal_count.Base.Keys.{◌==◌, string_eq}
use signal_count.Base.Tests.{if◌then◌else◌, Bool-cases}

mutual
  pub data Json : Type 0 where
    null : Json
    bool : Bool → Json
    nat : ℕ → Json
    num : String → Json
    str : String → Json
    arr : Items → Json
    obj : Fields → Json

  pub data Items : Type 0 where
    nil : Items
    item : Json → Items → Items

  pub data Fields : Type 0 where
    end : Fields
    field : String → Json → Fields → Fields

-- `d.get(key)`
abbrev pub get_field : String → Fields → Option Json
get_field k end = none
get_field k (field j v fs) = if j == k then some v else get_field k fs

-- `value` if it is a text that is not empty.
abbrev pub text_of : Option Json → Option String
text_of (some (str String.[])) = none
text_of (some (str s)) = some s
text_of _ = none

abbrev pub items_of : List Json → Items
items_of [] = nil
items_of (v ∷ vs) = item v (items_of vs)

-- A list of texts.
abbrev pub texts : List String → Json
texts ss = arr (items_of (map str ss))

-- A text or `None`.
abbrev pub text_or_null : Option String → Json
text_or_null none = null
text_or_null (some s) = str s

-- `d[key] = value`
abbrev pub set_field : String → Json → Fields → Fields
set_field k v end = field k v end
set_field k v (field j w d) = if j == k then field j v d else field j w (set_field k v d)

-- `d.update(other)`
abbrev pub update_fields : Fields → Fields → Fields
update_fields end d = d
update_fields (field k v more) d = update_fields more (set_field k v d)

pub get_field-set_field :
    (k j : String) (v : Json) (d : Fields)
    → get_field j (set_field k v d) ≡ (if k == j then some v else get_field j d)
get_field-set_field k j v end = refl
get_field-set_field k j v (field i w d) = ground (
  arith,
  get_field-set_field k j v d,
  string_eq.beq_iff i k,
  string_eq.beq_iff i j,
  string_eq.beq_iff k j,
)

-- A key that the other dict does not have keeps its value.
pub get_field-update_fields :
    (key : String) (other d : Fields)
    → get_field key other ≡ none
    → get_field key (update_fields other d) ≡ get_field key d
get_field-update_fields key end d h = refl
get_field-update_fields key (field k v more) d h = elim (Bool-cases (k == key)) [
  | inl here ↦ let bad = rw here at h in cc
  | inr other ↦
      get_field-update_fields key more (set_field k v d) (rw other at h)
      ∙ get_field-set_field k key v d
      ∙ rw other refl
]
