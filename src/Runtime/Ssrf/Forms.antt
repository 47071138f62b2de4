-- ===== src/Runtime/Ssrf/Forms.antt =====
-- The spellings of an IPv4 address that src/runtime/ssrf.ts reads.
use mathlib.Core.List.{reverse, reverse-cons, reverse-reverse}
use mathlib.Core.Option
use consensus_node.Base.{
  ℕ, zero, suc, ◌≤◌, Text, Bool, true, false, ◌||◌, List, [], ◌∷◌, ◌++◌, ◌==◌, nat_eq, nat_beq_iff,
  ◌≡◌, refl, ap, ap₂, sym, subst, ◌∙◌, arith, includes, map, length,
}
use consensus_node.Base.Case.{lower_char, to_lower_case}
use consensus_node.Base.Decimal.{
  decimal, every, every-append, every-decimal, is_digit, includes-every_digit, parse_int,
  parse_int-decimal, decimal-Leads, decimal_zero,
}
use consensus_node.Base.Splitting.{split, split_append, split_plain, starts_with}
use consensus_node.Runtime.Ssrf.{
  dot, colon, or_numerals, read_ipv4, strip_front, strip_brackets, mapped, is_numeral,
  numeral_value, all_numerals, ip32_of, dotted_of, numerals, normalize_to_ipv4,
}

-- Only digits and dots.
abbrev pub is_plain : ℕ → Bool
is_plain c = is_digit c || c == dot

strip_front_plain :
    (b : ℕ) (s : Text) → is_plain b ≡ false → every is_plain s ≡ true → strip_front b s ≡ s
unfolding every
strip_front_plain b [] n h = refl
strip_front_plain b (c ∷ s) n h = ground (arith, nat_beq_iff c b)

every-reverse : (p : ℕ → Bool) (s : Text) → every p s ≡ true → every p (reverse s) ≡ true
unfolding every
every-reverse p [] h = refl
every-reverse p (c ∷ s) h =
    rw (reverse-cons c s, every-append p (reverse s) (c ∷ [])) (ground (arith, every-reverse p s))

pub strip_brackets_plain : (s : Text) → every is_plain s ≡ true → strip_brackets s ≡ s
unfolding strip_brackets
strip_brackets_plain s h =
    ap (λ t. reverse (strip_front b']' (reverse t))) (strip_front_plain b'[' s refl h)
    ∙ ap reverse (strip_front_plain b']' (reverse s) refl (every-reverse is_plain s h))
    ∙ reverse-reverse s

to_lower_case_plain : (s : Text) → every is_plain s ≡ true → to_lower_case s ≡ s
unfolding every to_lower_case lower_char
to_lower_case_plain [] h = refl
to_lower_case_plain (c ∷ s) h = ap₂ ◌∷◌ (ground arith) (to_lower_case_plain s (ground arith))

no_colon : (s : Text) → every is_plain s ≡ true → includes colon s ≡ false
unfolding every
no_colon [] h = refl
no_colon (c ∷ s) h = ground (arith, no_colon s)

leading :
    (c : ℕ) (s : Text)
    → every is_digit (c ∷ s) ≡ true
    → b'1' ≤ c
    → c ≤ b'9'
    → (is_numeral (c ∷ s) ≡ true) × (numeral_value (c ∷ s) ≡ parse_int 10 0 (c ∷ s))
unfolding is_numeral numeral_value every starts_with
leading c s h lo hi = (ground arith, ground arith)

numeral-decimal : (n : ℕ) → (is_numeral (decimal n) ≡ true) × (numeral_value (decimal n) ≡ n)
unfolding is_numeral numeral_value every starts_with parse_int
numeral-decimal zero = rw decimal_zero (refl, refl)
numeral-decimal (suc n) =
    let l = decimal-Leads (suc n) (omega arith) in
    let (a, b) =
      leading l.first l.rest (subst (λ t. every is_digit t ≡ true) l.shape (every-decimal (suc n)))
        l.low l.high in
    (
      ap is_numeral l.shape ∙ a,
      ap numeral_value l.shape
          ∙ (b ∙ (ap (parse_int 10 0) (sym l.shape) ∙ parse_int-decimal (suc n))),
    )

-- Numbers with dots between them.
abbrev pub dotted_join : ℕ → List ℕ → Text
dotted_join n [] = decimal n
dotted_join n (m ∷ ms) = decimal n ++ (dot ∷ dotted_join m ms)

split-dotted_join : (n : ℕ) (ns : List ℕ) → split dot (dotted_join n ns) ≡ map decimal (n ∷ ns)
split-dotted_join n [] =
    split_plain dot (decimal n) (includes-every_digit dot _ (every-decimal n) refl)
split-dotted_join n (m ∷ ms) =
    split_append dot (decimal n) _ (includes-every_digit dot _ (every-decimal n) refl)
    ∙ ap (λ r. decimal n ∷ r) (split-dotted_join m ms)

digits_plain : (s : Text) → every is_digit s ≡ true → every is_plain s ≡ true
unfolding every
digits_plain [] h = refl
digits_plain (c ∷ s) h = ground (arith, digits_plain s)

pub dotted_join_plain : (n : ℕ) (ns : List ℕ) → every is_plain (dotted_join n ns) ≡ true
unfolding every
dotted_join_plain n [] = digits_plain (decimal n) (every-decimal n)
dotted_join_plain n (m ∷ ms) =
    every-append is_plain (decimal n) (dot ∷ dotted_join m ms)
    ∙ ground (arith, digits_plain (decimal n) (every-decimal n), dotted_join_plain m ms)

all_numerals-map : (ns : List ℕ) → all_numerals (map decimal ns) ≡ true
all_numerals-map [] = refl
all_numerals-map (n ∷ ns) = ground (arith, numeral-decimal n, all_numerals-map ns)

values-map : (ns : List ℕ) → map numeral_value (map decimal ns) ≡ ns
values-map [] = refl
values-map (n ∷ ns) = ap₂ ◌∷◌ (numeral-decimal n).1 (values-map ns)

length-map-decimal : (ns : List ℕ) → length (map decimal ns) ≡ length ns
length-map-decimal [] = refl
length-map-decimal (n ∷ ns) = omega (arith, length-map-decimal ns)

numerals-dotted_join :
    (n : ℕ) (ns : List ℕ)
    → length ns ≤ 3
    → numerals (dotted_join n ns) ≡ Option.map dotted_of (ip32_of (n ∷ ns))
unfolding numerals
numerals-dotted_join n ns h =
    rw (split-dotted_join n ns, all_numerals-map (n ∷ ns), values-map (n ∷ ns))
      (ground (arith, length-map-decimal ns))

read_plain : (s : Text) → includes colon s ≡ false → read_ipv4 s ≡ numerals s
unfolding read_ipv4 mapped
read_plain s h = ap (λ ps. or_numerals s (mapped ps)) (split_plain colon s h)

-- Up to four decimal numbers with dots between them are read as the address of those numbers.
pub normalize-dotted_join :
    (n : ℕ) (ns : List ℕ)
    → length ns ≤ 3
    → normalize_to_ipv4 (dotted_join n ns) ≡ Option.map dotted_of (ip32_of (n ∷ ns))
unfolding normalize_to_ipv4
normalize-dotted_join n ns h =
    let plain = dotted_join_plain n ns in
    ap read_ipv4 (
      ap to_lower_case (strip_brackets_plain (dotted_join n ns) plain)
      ∙ to_lower_case_plain (dotted_join n ns) plain)
    ∙ (read_plain (dotted_join n ns) (no_colon _ plain) ∙ numerals-dotted_join n ns h)
