-- ===== src/Base/Case.antt =====
-- `toLowerCase`, `toUpperCase`, `trim` and the order of strings, on code units. Case is that of the
-- ASCII letters, which is all that HTTP names and methods have.
use Prim.Native.Nat.{ℕ, ◌+◌, ◌-◌}
use mathlib.Core.Path.{◌≡◌, refl}
use mathlib.Core.Bool.{Bool, true, false, ◌&&◌, ◌||◌}
use mathlib.Core.List.{[], ◌∷◌, map, reverse}
use native.Mathlib.Omega.{arith}
use consensus_node.Base.Tests.{ltb, leb, nat_beq, if◌then◌else◌}
use consensus_node.Base.Texts.{Text, codes}

unfoldable pub lower_char : ℕ → ℕ
lower_char c = if leb b'A' c && leb c b'Z' then c + 32 else c

unfoldable pub upper_char : ℕ → ℕ
upper_char c = if leb b'a' c && leb c b'z' then c - 32 else c

unfoldable pub to_lower_case : Text → Text
unfolding lower_char
to_lower_case = map lower_char

unfoldable pub to_upper_case : Text → Text
unfolding upper_char
to_upper_case = map upper_char

-- The white space and line terminators that `trim` and `\s` take, also beyond ASCII.
abbrev pub is_space : ℕ → Bool
is_space c =
    (leb 9 c && leb c 13)
    || nat_beq c 32
    || nat_beq c 0xa0
    || nat_beq c 0x1680
    || (leb 0x2000 c && leb c 0x200a)
    || nat_beq c 0x2028
    || nat_beq c 0x2029
    || nat_beq c 0x202f
    || nat_beq c 0x205f
    || nat_beq c 0x3000
    || nat_beq c 0xfeff

trim_start : Text → Text
trim_start [] = []
trim_start (c ∷ s) = let rest = trim_start s in if is_space c then rest else c ∷ s

unfoldable pub trim : Text → Text
unfolding trim_start
trim s = reverse (trim_start (reverse (trim_start s)))

-- `a < b`, by code units.
unfoldable pub text_lt : Text → Text → Bool
text_lt s [] = false
text_lt [] (d ∷ t) = true
text_lt (c ∷ s) (d ∷ t) = ltb c d || (nat_beq c d && text_lt s t)

lower_char_idem : (c : ℕ) → lower_char (lower_char c) ≡ lower_char c
unfolding lower_char
lower_char_idem c = ground arith

pub to_lower_case_idem : (s : Text) → to_lower_case (to_lower_case s) ≡ to_lower_case s
unfolding to_lower_case
to_lower_case_idem [] = refl
to_lower_case_idem (c ∷ s) = cc (lower_char_idem c, to_lower_case_idem s)

upper_char_idem : (c : ℕ) → upper_char (upper_char c) ≡ upper_char c
unfolding upper_char
upper_char_idem c = ground arith

pub to_upper_case_idem : (s : Text) → to_upper_case (to_upper_case s) ≡ to_upper_case s
unfolding to_upper_case
to_upper_case_idem [] = refl
to_upper_case_idem (c ∷ s) = cc (upper_char_idem c, to_upper_case_idem s)

trim_both : trim (codes "  text/html ") ≡ codes "text/html"
unfolding trim
trim_both = refl
