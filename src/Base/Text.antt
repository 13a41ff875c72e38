-- ===== src/Base/Text.antt =====
-- Python's string methods that the program uses, over the native texts.
use Prim.Native.Char.{Char, code}
use Prim.Native.String
use Prim.Native.String.{String}
use signal_count.Base.Tests.{leb, ltb, nat_beq, if◌then◌else◌}
use Prim.Native.Nat.{ℕ, zero, suc, ◌-◌}
use mathlib.Core.Path.{◌≡◌, refl}
use mathlib.Core.Bool.{Bool, true, false, ◌&&◌, ◌||◌}
use mathlib.Core.Logic.{◌⊎◌, inl, inr}
use mathlib.Core.List.{List, [], ◌∷◌}
use native.Mathlib.Omega.{arith}

-- `s == ""`, the falsy text.
abbrev pub is_empty : String → Bool
is_empty String.[] = true
is_empty (String.◌∷◌ c s) = false

-- What `str.strip` removes.
abbrev pub is_space : Char → Bool
is_space c =
    let n = code c in
    leb 9 n && leb n 13
    || leb 28 n && leb n 32
    || nat_beq n 133
    || nat_beq n 160
    || nat_beq n 5760
    || leb 8192 n && leb n 8202
    || nat_beq n 8232
    || nat_beq n 8233
    || nat_beq n 8239
    || nat_beq n 8287
    || nat_beq n 12288

unfoldable pub lstrip : String → String
lstrip String.[] = ""
lstrip (String.◌∷◌ c s) = if is_space c then lstrip s else String.◌∷◌ c s

unfoldable pub rstrip : String → String
rstrip String.[] = ""
rstrip (String.◌∷◌ c s) =
    let rest = rstrip s in if is_space c && is_empty rest then "" else String.◌∷◌ c rest

-- `s.strip()`
unfoldable pub strip : String → String
unfolding lstrip rstrip
strip s = rstrip (lstrip s)

abbrev pub push : Char → List String → List String
push c [] = String.◌∷◌ c "" ∷ []
push c (w ∷ ws) = String.◌∷◌ c w ∷ ws

-- `s.split(sep)` at a character, by its code.
unfoldable pub split_on : ℕ → String → List String
split_on sep String.[] = "" ∷ []
split_on sep (String.◌∷◌ c s) =
    let rest = split_on sep s in if nat_beq (code c) sep then "" ∷ rest else push c rest

-- `sep in s`
unfoldable pub has_char : ℕ → String → Bool
has_char sep String.[] = false
has_char sep (String.◌∷◌ c s) = if nat_beq (code c) sep then true else has_char sep s

-- `s.split(sep, 1)`, for a text that has the separator: what stands before it, and after.
unfoldable pub before_char : ℕ → String → String
before_char sep String.[] = ""
before_char sep (String.◌∷◌ c s) =
    if nat_beq (code c) sep then "" else String.◌∷◌ c (before_char sep s)

unfoldable pub after_char : ℕ → String → String
after_char sep String.[] = ""
after_char sep (String.◌∷◌ c s) = if nat_beq (code c) sep then s else after_char sep s

-- `sep.join(parts)`
abbrev pub join : String → List String → String
join sep [] = ""
join sep (p ∷ []) = p
join sep (p ∷ q ∷ ps) = String.◌++◌ p (String.◌++◌ sep (join sep (q ∷ ps)))

-- The parts of an f-string, one after the other.
abbrev pub fstring : List String → String
fstring parts = join "" parts

abbrev letters : List Char
letters =
    "a" ∷ "b" ∷ "c" ∷ "d" ∷ "e" ∷ "f" ∷ "g" ∷ "h" ∷ "i" ∷ "j" ∷ "k" ∷ "l" ∷ "m" ∷ "n" ∷ "o" ∷ "p"
    ∷ "q" ∷ "r" ∷ "s" ∷ "t" ∷ "u" ∷ "v" ∷ "w" ∷ "x" ∷ "y" ∷ "z" ∷ []

abbrev nth_letter : ℕ → List Char → Char → Char
nth_letter n [] c = c
nth_letter zero (l ∷ ls) c = l
nth_letter (suc n) (l ∷ ls) c = nth_letter n ls c

abbrev lower_char : Char → Char
lower_char c = if leb 65 (code c) && leb (code c) 90 then nth_letter (code c - 65) letters c else c

-- `s.lower()` on ASCII letters; the program lowers hexadecimal texts, addresses and statuses.
unfoldable pub lower : String → String
lower String.[] = ""
lower (String.◌∷◌ c s) = String.◌∷◌ (lower_char c) (lower s)

lower_test : lower "0xAbZ" ≡ "0xabz"
unfolding lower
lower_test = refl

-- `s.startswith(prefix)` and `s.removeprefix(prefix)`
unfoldable pub starts_with : String → String → Bool
starts_with String.[] s = true
starts_with (String.◌∷◌ p ps) String.[] = false
starts_with (String.◌∷◌ p ps) (String.◌∷◌ c s) =
    if nat_beq (code p) (code c) then starts_with ps s else false

unfoldable pub drop_text : String → String → String
drop_text String.[] s = s
drop_text (String.◌∷◌ p ps) String.[] = ""
drop_text (String.◌∷◌ p ps) (String.◌∷◌ c s) = drop_text ps s

unfoldable pub remove_prefix : String → String → String
unfolding starts_with drop_text
remove_prefix p s = if starts_with p s then drop_text p s else s

-- `len(s)`
unfoldable pub text_length : String → ℕ
text_length String.[] = 0
text_length (String.◌∷◌ c s) = suc (text_length s)

abbrev is_hex : Char → Bool
is_hex c = let n = code c in leb 48 n && leb n 57 || leb 97 n && leb n 102 || leb 65 n && leb n 70

-- Hexadecimal digits with single underscores between; `digit` says that a digit came before.
unfoldable pub hex_digits : Bool → String → Bool
hex_digits digit String.[] = digit
hex_digits digit (String.◌∷◌ c s) =
    let more = hex_digits true s in
    let after = hex_digits false s in
    if is_hex c then more else digit && nat_beq (code c) 95 && after

-- `int(s, 16)` does not raise, for ASCII texts: spaces around, a sign, and `0x` are allowed.
unfoldable pub is_int16 : String → Bool
unfolding strip remove_prefix starts_with hex_digits
is_int16 s =
    let t = strip s in
    let unsigned = if starts_with "-" t then remove_prefix "-" t else remove_prefix "+" t in
    if starts_with "0x" unsigned || starts_with "0X" unsigned
    then hex_digits false (remove_prefix "_" (remove_prefix "0X" (remove_prefix "0x" unsigned)))
    else hex_digits false unsigned

-- `a < b` of texts: by code points.
unfoldable pub text_lt : String → String → Bool
text_lt String.[] String.[] = false
text_lt String.[] (String.◌∷◌ d t) = true
text_lt (String.◌∷◌ c s) String.[] = false
text_lt (String.◌∷◌ c s) (String.◌∷◌ d t) =
    let rest = text_lt s t in
    if ltb (code c) (code d) then true else if ltb (code d) (code c) then false else rest

pub text_lt-asym : (a b : String) → text_lt a b ≡ true → text_lt b a ≡ false
unfolding text_lt
text_lt-asym String.[] String.[] h = cc
text_lt-asym String.[] (String.◌∷◌ d t) h = refl
text_lt-asym (String.◌∷◌ c s) String.[] h = cc
text_lt-asym (String.◌∷◌ c s) (String.◌∷◌ d t) h = ground (arith, text_lt-asym s t)

pub text_lt_trans : (a b c : String) → text_lt a b ≡ true → text_lt b c ≡ true → text_lt a c ≡ true
unfolding text_lt
text_lt_trans String.[] String.[] c p q = cc
text_lt_trans String.[] (String.◌∷◌ d t) String.[] p q = cc
text_lt_trans String.[] (String.◌∷◌ d t) (String.◌∷◌ e u) p q = refl
text_lt_trans (String.◌∷◌ c s) String.[] u p q = cc
text_lt_trans (String.◌∷◌ c s) (String.◌∷◌ d t) String.[] p q = cc
text_lt_trans (String.◌∷◌ c s) (String.◌∷◌ d t) (String.◌∷◌ e u) p q =
    ground (arith, text_lt_trans s t u)

pub text_lt_compare :
    (a b c : String) → text_lt a c ≡ true → (text_lt a b ≡ true) ⊎ (text_lt b c ≡ true)
unfolding text_lt
text_lt_compare String.[] String.[] c p = inr p
text_lt_compare String.[] (String.◌∷◌ d t) c p = inl refl
text_lt_compare (String.◌∷◌ c s) b String.[] p = cc
text_lt_compare (String.◌∷◌ c s) String.[] (String.◌∷◌ e u) p = inr refl
text_lt_compare (String.◌∷◌ c s) (String.◌∷◌ d t) (String.◌∷◌ e u) p =
    ground (arith, text_lt_compare s t u)

-- `sub in s`
unfoldable pub contains : String → String → Bool
unfolding starts_with
contains sub String.[] = starts_with sub ""
contains sub (String.◌∷◌ c s) = if starts_with sub (String.◌∷◌ c s) then true else contains sub s

-- `s.replace(old, new)` of characters: the old one by its code, the new one as a text.
unfoldable pub replace_char : ℕ → String → String → String
replace_char old new String.[] = ""
replace_char old new (String.◌∷◌ c s) =
    let rest = replace_char old new s in
    if nat_beq (code c) old then String.◌++◌ new rest else String.◌∷◌ c rest
