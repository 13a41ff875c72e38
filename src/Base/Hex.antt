-- ===== src/Base/Hex.antt =====
-- What Python reads from hexadecimal texts: `int(s, 16)` after `0x`, and `bytes.fromhex`.
use Prim.Native.Char.{Char, code}
use Prim.Native.String
use Prim.Native.String.{String}
use Prim.Native.Nat.{ℕ, zero, suc, ◌+◌, ◌-◌, ◌*◌, ◌/◌, ◌%◌}
use mathlib.Core.Path.{◌≡◌, refl}
use mathlib.Core.Bool.{Bool, true, false, ◌&&◌, ◌||◌}
use mathlib.Core.Option.{Option, none, some}
use mathlib.Core.List.{List, [], ◌∷◌}
use signal_count.Base.Tests.{leb, nat_beq, if◌then◌else◌}
use signal_count.Base.Text.{rstrip, remove_prefix}

abbrev digit_value : Char → Option ℕ
digit_value c =
    let n = code c in
    if leb 48 n && leb n 57
    then some (n - 48)
    else if leb 97 n && leb n 102
    then some (n - 87)
    else if leb 65 n && leb n 70
    then some (n - 55)
    else none

-- Digits with single underscores between; `digit` says that a digit came before.
hex_number : Bool → ℕ → String → Option ℕ
hex_number digit acc String.[] = if digit then some acc else none
hex_number digit acc (String.◌∷◌ c s) = elim (digit_value c) [
  | some v ↦ hex_number true (acc * 16 + v) s
  | none ↦ elim (digit && nat_beq (code c) 95) [ true ↦ hex_number false acc s | false ↦ none ]
]

-- `int(s, 16)` of a text that starts with `0x`; `none` is a `ValueError`.
unfoldable pub read_hex : String → Option ℕ
unfolding hex_number remove_prefix rstrip
read_hex s = hex_number false 0 (remove_prefix "_" (remove_prefix "0x" (rstrip s)))

cons_byte : ℕ → Option (List ℕ) → Option (List ℕ)
cons_byte b none = none
cons_byte b (some bs) = some (b ∷ bs)

byte_of : Option ℕ → Option ℕ → Option (List ℕ) → Option (List ℕ)
unfolding cons_byte
byte_of (some h) (some l) rest = cons_byte (h * 16 + l) rest
byte_of _ _ rest = none

abbrev is_blank : Char → Bool
is_blank c = let n = code c in leb 9 n && leb n 13 || nat_beq n 32

-- `bytes.fromhex(s)`: pairs of digits, with blanks allowed between the pairs.
unfoldable pub from_hex : String → Option (List ℕ)
unfolding byte_of
from_hex String.[] = some []
from_hex (String.◌∷◌ c String.[]) = if is_blank c then some [] else none
from_hex (String.◌∷◌ c (String.◌∷◌ d s)) = elim (is_blank c) [
  | true ↦ from_hex (String.◌∷◌ d s)
  | false ↦ byte_of (digit_value c) (digit_value d) (from_hex s)
]

-- `s[:n]`
unfoldable pub take_text : ℕ → String → String
take_text zero s = ""
take_text (suc n) String.[] = ""
take_text (suc n) (String.◌∷◌ c s) = String.◌∷◌ c (take_text n s)

read_hex_test : read_hex "0x1F" ≡ some 31
unfolding read_hex
read_hex_test = refl

from_hex_test : from_hex "0a fF" ≡ some (10 ∷ 255 ∷ [])
unfolding from_hex
from_hex_test = refl

abbrev digit_texts : List String
digit_texts =
    "0" ∷ "1" ∷ "2" ∷ "3" ∷ "4" ∷ "5" ∷ "6" ∷ "7" ∷ "8" ∷ "9" ∷ "a" ∷ "b" ∷ "c" ∷ "d" ∷ "e" ∷ "f"
    ∷ []

digit_text : ℕ → List String → String
digit_text n [] = ""
digit_text zero (d ∷ ds) = d
digit_text (suc n) (d ∷ ds) = digit_text n ds

-- The digits of a number before those in hand; the fuel is above the number.
digits_before : ℕ → ℕ → String → String
digits_before zero n rest = rest
digits_before (suc fuel) n rest =
    let text = String.◌++◌ (digit_text (n % 16) digit_texts) rest in
    let more = digits_before fuel (n / 16) text in if leb n 15 then text else more

-- `hex(n)`
unfoldable pub to_hex : ℕ → String
unfolding digits_before digit_text
to_hex n = String.◌++◌ "0x" (digits_before (suc n) n "")

to_hex_test : to_hex 2748 ≡ "0xabc"
unfolding to_hex
to_hex_test = refl
