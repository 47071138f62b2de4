-- ===== src/Base/Keys.antt =====
-- The order in which an object lists the keys that were put into it in sorted order: array indices come
-- first, as numbers, and then the others, by code units.
use mathlib.Core.Path.{◌≡◌, refl}
use mathlib.Core.Bool.{Bool, true, false, not, ◌&&◌}
use mathlib.Core.List.{[], ◌∷◌}
use native.Mathlib.Omega.{arith}
use consensus_node.Base.Tests.{ltb, nat_beq}
use consensus_node.Base.Texts.{Text}
use consensus_node.Base.Decimal.{is_digit, every, parse_int}
use consensus_node.Base.Case.{text_lt}

-- No leading zero, and below 2^32 - 1.
abbrev is_numeral : Text → Bool
is_numeral [] = false
is_numeral (c ∷ []) = is_digit c
is_numeral (c ∷ d ∷ s) = not (nat_beq c b'0') && every is_digit (c ∷ d ∷ s)

unfoldable pub is_index : Text → Bool
is_index s = is_numeral s && ltb (parse_int 10 0 s) 4294967295

abbrev ordered : Bool → Bool → Text → Text → Bool
ordered true true a b = ltb (parse_int 10 0 a) (parse_int 10 0 b)
ordered true false a b = true
ordered false true a b = false
ordered false false a b = text_lt a b

unfoldable pub key_lt : Text → Text → Bool
key_lt a b = ordered (is_index a) (is_index b) a b

text_lt_self : (s : Text) → text_lt s s ≡ false
unfolding text_lt
text_lt_self [] = refl
text_lt_self (c ∷ s) = ground (arith, text_lt_self s)

ordered_self : (b : Bool) (s : Text) → ordered b b s s ≡ false
ordered_self true s = ground arith
ordered_self false s = text_lt_self s

pub key_lt_self : (s : Text) → key_lt s s ≡ false
unfolding key_lt
key_lt_self s = ordered_self (is_index s) s
