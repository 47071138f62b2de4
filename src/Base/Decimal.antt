-- ===== src/Base/Decimal.antt =====
-- Numbers as text: `String(n)`, `parseInt(text, radix)` on digits of that radix, and `Number(text)` on
-- decimal digits.
use Prim.Native.Nat.{ℕ, zero, suc, ◌+◌, ◌-◌, ◌*◌, ◌/◌, ◌%◌, ◌≤◌, ◌<◌}
use mathlib.Core.Path.{◌≡◌, refl, ap}
use mathlib.Core.Bool.{Bool, true, false, ◌&&◌}
use mathlib.Core.Option.{Option, none, some}
use mathlib.Core.List.{[], ◌∷◌, ◌++◌}
use native.Mathlib.Omega.{arith}
use mathlib.Core.Logic.{inl, inr}
use consensus_node.Base.Tests.{Bool-cases, ltb, leb, nat_eq, if◌then◌else◌, nat_beq_iff}
use consensus_node.Base.Lists.{includes}
use consensus_node.Base.Texts.{Text}

-- Fuel: a number has no more digits than its successor.
digits : ℕ → ℕ → Text
digits zero n = []
digits (suc fuel) n =
    let rest = digits fuel (n / 10) in
    if ltb n 10 then (b'0' + n) ∷ [] else rest ++ ((b'0' + n % 10) ∷ [])

unfoldable pub decimal : ℕ → Text
unfolding digits
decimal n = digits (suc n) n

abbrev pub is_digit : ℕ → Bool
is_digit c = leb b'0' c && leb c b'9'

-- 0-9 and a-f; any other character is 16.
abbrev pub digit_value : ℕ → ℕ
digit_value c = if is_digit c then c - b'0' else if leb b'a' c && leb c b'f' then c - 87 else 16

unfoldable pub every : (ℕ → Bool) → Text → Bool
every p [] = true
every p (c ∷ s) = p c && every p s

unfoldable pub parse_int : ℕ → ℕ → Text → ℕ
parse_int radix acc [] = acc
parse_int radix acc (c ∷ s) = parse_int radix (acc * radix + digit_value c) s

-- Number(text) of a text of digits; `none` is NaN, and the empty text is 0. Hexadecimal, an exponent, a
-- sign or white space, which Number reads as well, are outside of the model and count as NaN.
unfoldable pub number_of : Text → Option ℕ
number_of s = if every is_digit s then some (parse_int 10 0 s) else none

parse_int_last :
    (acc : ℕ) (s : Text) (c : ℕ)
    → parse_int 10 acc (s ++ (c ∷ [])) ≡ parse_int 10 acc s * 10 + digit_value c
unfolding parse_int
parse_int_last acc [] c = refl
parse_int_last acc (d ∷ s) c = parse_int_last (acc * 10 + digit_value d) s c

every_last : (p : ℕ → Bool) (s : Text) (c : ℕ) → every p (s ++ (c ∷ [])) ≡ (every p s && p c)
unfolding every
every_last p [] c = ground arith
every_last p (d ∷ s) c = ground (arith, every_last p s c)

parse_int-digits : (fuel n : ℕ) → n < fuel → parse_int 10 0 (digits fuel n) ≡ n
unfolding digits parse_int
parse_int-digits zero n h = absurd (omega arith)
parse_int-digits (suc fuel) n h =
    ground (
      arith,
      parse_int-digits fuel (n / 10),
      parse_int_last 0 (digits fuel (n / 10)) (b'0' + n % 10),
    )

pub parse_int-decimal : (n : ℕ) → parse_int 10 0 (decimal n) ≡ n
unfolding decimal
parse_int-decimal n = parse_int-digits (suc n) n (omega arith)

every-digits : (fuel n : ℕ) → every is_digit (digits fuel n) ≡ true
unfolding digits every
every-digits zero n = refl
every-digits (suc fuel) n =
    ground (
      arith,
      every-digits fuel (n / 10),
      every_last is_digit (digits fuel (n / 10)) (b'0' + n % 10),
    )

pub every-decimal : (n : ℕ) → every is_digit (decimal n) ≡ true
unfolding decimal
every-decimal n = every-digits (suc n) n

pub number_of-decimal : (n : ℕ) → number_of (decimal n) ≡ some n
unfolding number_of
number_of-decimal n = rw (every-decimal n, parse_int-decimal n) refl

-- Digits hold no separator.
pub includes-every_digit :
    (c : ℕ) (s : Text) → every is_digit s ≡ true → is_digit c ≡ false → includes c s ≡ false
unfolding every
includes-every_digit c [] h n = refl
includes-every_digit c (d ∷ s) h n = ground (arith, includes-every_digit c s, nat_beq_iff d c)

-- The first digit of a positive number is not 0.
pub record Leads (s : Text) : Type 0 where
  pub first : ℕ
  pub rest : Text
  pub shape : s ≡ first ∷ rest
  pub low : b'1' ≤ first
  pub high : first ≤ b'9'

Leads-last : (s : Text) (c : ℕ) → Leads s → Leads (s ++ (c ∷ []))
Leads-last s c l = record {
  first = l.first;
  rest = l.rest ++ (c ∷ []);
  shape = ap (λ t. t ++ (c ∷ [])) l.shape;
  low = l.low;
  high = l.high;
}

digits-Leads : (fuel n : ℕ) → n < fuel → 0 < n → Leads (digits fuel n)
unfolding digits
digits-Leads zero n h p = absurd (omega arith)
digits-Leads (suc fuel) n h p = elim (Bool-cases (ltb n 10)) [
  | inl t ↦
      rw t (record {
        first = b'0' + n;
        rest = [];
        shape = refl;
        low = omega arith;
        high = ground arith;
      })
  | inr f ↦ rw f (
      Leads-last (digits fuel (n / 10)) _
        (digits-Leads fuel (n / 10) (ground arith) (ground arith)))
]

pub decimal-Leads : (n : ℕ) → 0 < n → Leads (decimal n)
unfolding decimal
decimal-Leads n p = digits-Leads (suc n) n (omega arith) p

pub decimal_zero : decimal 0 ≡ b'0' ∷ []
unfolding decimal
decimal_zero = refl

pub every-append : (p : ℕ → Bool) (s t : Text) → every p (s ++ t) ≡ (every p s && every p t)
unfolding every
every-append p [] t = refl
every-append p (c ∷ s) t = ground (arith, every-append p s t)
