-- ===== src/Base/Texts.antt =====
-- JavaScript strings as lists of code units, and `Buffer.from(text, "utf8")` and `toString("hex")`.
-- A literal is written `codes "…"`; the program's own literals are ASCII, where code units, code
-- points and bytes are one.
use Prim.Native.Nat.{ℕ, ◌+◌, ◌-◌, ◌*◌, ◌/◌, ◌%◌}
use Prim.Native.Char.{code}
use Prim.Native.String.{String}
use mathlib.Core.Path.{◌≡◌, refl}
use mathlib.Core.List.{List, [], ◌∷◌, ◌++◌}
use mathlib.Core.Bool.{Bool, true, false, ◌&&◌}
use mathlib.Core.Logic.{◌↔◌}
use mathlib.Core.Option.{Option, none, some}
use native.Mathlib.Omega.{arith}
use consensus_node.Base.Tests.{EqTest, ltb, leb, nat_beq, if◌then◌else◌}

abbrev pub Text : Type 0
Text = List ℕ

-- The code points of a text.
abbrev pub codes : String → Text
codes String.[] = []
codes (String.◌∷◌ c s) = code c ∷ codes s

unfoldable pub text_beq : Text → Text → Bool
text_beq [] [] = true
text_beq [] (y ∷ ys) = false
text_beq (x ∷ xs) [] = false
text_beq (x ∷ xs) (y ∷ ys) = nat_beq x y && text_beq xs ys

text_beq_refl : (s : Text) → text_beq s s ≡ true
unfolding text_beq
text_beq_refl [] = refl
text_beq_refl (x ∷ xs) = ground (arith, text_beq_refl xs)

text_beq_sound : (s t : Text) → text_beq s t ≡ true → s ≡ t
unfolding text_beq
text_beq_sound [] [] h = refl
text_beq_sound [] (y ∷ ys) h = cc
text_beq_sound (x ∷ xs) [] h = cc
text_beq_sound (x ∷ xs) (y ∷ ys) h = ground (arith, text_beq_sound xs ys)

pub text_eq_iff : (s t : Text) → (text_beq s t ≡ true) ↔ (s ≡ t)
text_eq_iff s t = (text_beq_sound s t, λ e. rw e (text_beq_refl t))

instance abbrev pub text_eq : EqTest Text
text_eq = record { same = text_beq; same_iff = text_eq_iff }

-- One code point in one to four bytes.
abbrev pub utf8_char : ℕ → List ℕ
utf8_char c =
    if ltb c 0x80
    then c ∷ []
    else if ltb c 0x800
    then (0xc0 + c / 0x40) ∷ (0x80 + c % 0x40) ∷ []
    else if ltb c 0x1_0000
    then (0xe0 + c / 0x1000) ∷ (0x80 + c / 0x40 % 0x40) ∷ (0x80 + c % 0x40) ∷ []
    else (0xf0 + c / 0x4_0000)
      ∷ (0x80 + c / 0x1000 % 0x40)
      ∷ (0x80 + c / 0x40 % 0x40)
      ∷ (0x80 + c % 0x40)
      ∷ []

-- A pair of surrogates is one code point.
abbrev code_point : ℕ → ℕ → ℕ
code_point hi lo = 0x1_0000 + (hi - 0xd800) * 0x400 + (lo - 0xdc00)

abbrev is_high : ℕ → Bool
is_high c = leb 0xd800 c && leb c 0xdbff

abbrev is_low : ℕ → Bool
is_low c = leb 0xdc00 c && leb c 0xdfff

-- A surrogate on its own is written as U+FFFD.
abbrev lone : ℕ → List ℕ
lone c = if leb 0xd800 c && leb c 0xdfff then utf8_char 0xfffd else utf8_char c

-- `pending` is a high surrogate that waits for its low one.
utf8_from : Option ℕ → Text → List ℕ
utf8_from none [] = []
utf8_from (some hi) [] = utf8_char 0xfffd
utf8_from none (c ∷ s) =
    (if is_high c then [] else lone c) ++ utf8_from (if is_high c then some c else none) s
utf8_from (some hi) (c ∷ s) =
    (if is_low c
      then utf8_char (code_point hi c)
      else utf8_char 0xfffd ++ (if is_high c then [] else lone c))
    ++ utf8_from (if is_high c then some c else none) s

unfoldable pub utf8 : Text → List ℕ
unfolding utf8_from
utf8 s = utf8_from none s

utf8_euro :
    utf8 (0x61 ∷ 0x20ac ∷ 0xd83d ∷ 0xde00 ∷ [])
    ≡ 0x61 ∷ 0xe2 ∷ 0x82 ∷ 0xac ∷ 0xf0 ∷ 0x9f ∷ 0x98 ∷ 0x80 ∷ []
unfolding utf8
utf8_euro = refl

hex_digit : ℕ → ℕ
hex_digit d = if ltb d 10 then 0x30 + d else 0x57 + d

-- `buffer.toString("hex")`
unfoldable pub hex : List ℕ → Text
unfolding hex_digit
hex [] = []
hex (b ∷ bs) = hex_digit (b / 16) ∷ hex_digit (b % 16) ∷ hex bs

hex_of_bytes : hex (0x0f ∷ 0xa2 ∷ []) ≡ codes "0fa2"
unfolding hex
hex_of_bytes = refl
