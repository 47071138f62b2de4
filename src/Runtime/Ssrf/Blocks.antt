-- ===== src/Runtime/Ssrf/Blocks.antt =====
-- The private ranges of src/runtime/ssrf.ts, as CIDR blocks.
use consensus_node.Base.{
  ℕ, ◌+◌, ◌-◌, ◌*◌, ◌/◌, ◌^◌, ◌<◌, Bool, false, ◌||◌, ◌&&◌, List, [], ◌∷◌, some, ◌==◌, nat_eq, leb,
  ◌≡◌, refl, ap, ap₂, sym, ◌∙◌, arith, includes, map,
}
use consensus_node.Base.Decimal.{
  decimal, number_of, number_of-decimal, every-decimal, includes-every_digit,
}
use consensus_node.Base.Splitting.{split, split_append, split_plain}
use consensus_node.Runtime.Ssrf.{dot, join_dots, private_octets, octets_private, is_private_ipv4}

-- The first `size` bits of an address are those of the block's.
abbrev pub in_block : ℕ → ℕ × ℕ → Bool
in_block n block = n / 2 ^ (32 - block.1) == block.0

-- The first bits of the blocks, with their number: loopback, this network, 10/8, 172.16/12,
-- 192.168/16, link-local, shared address space, and the three documentation networks.
abbrev pub private_blocks : List (ℕ × ℕ)
private_blocks =
    (127, 8)
    ∷ (0, 8)
    ∷ (10, 8)
    ∷ (172 * 16 + 1, 12)
    ∷ (192 * 256 + 168, 16)
    ∷ (169 * 256 + 254, 16)
    ∷ (100 * 4 + 1, 10)
    ∷ ((192 * 256 + 0) * 256 + 2, 24)
    ∷ ((198 * 256 + 51) * 256 + 100, 24)
    ∷ ((203 * 256 + 0) * 256 + 113, 24)
    ∷ []

abbrev in_a_block_from : Bool → ℕ → List (ℕ × ℕ) → Bool
in_a_block_from found n [] = found
in_a_block_from found n (b ∷ bs) = in_a_block_from (found || in_block n b) n bs

abbrev pub in_any_block : ℕ → List (ℕ × ℕ) → Bool
in_any_block n blocks = in_a_block_from false n blocks

abbrev pub address : ℕ → ℕ → ℕ → ℕ → ℕ
address a b c d = ((a * 256 + b) * 256 + c) * 256 + d

no_dot : (n : ℕ) → includes dot (decimal n) ≡ false
no_dot n = includes-every_digit dot (decimal n) (every-decimal n) refl

pub split-join_dots :
    (a b c d : ℕ)
    → split dot (join_dots a b c d) ≡ decimal a ∷ decimal b ∷ decimal c ∷ decimal d ∷ []
split-join_dots a b c d =
    split_append dot (decimal a) _ (no_dot a)
    ∙ ap (λ r. decimal a ∷ r)
        (split_append dot (decimal b) _ (no_dot b)
          ∙ ap (λ r. decimal b ∷ r)
              (split_append dot (decimal c) _ (no_dot c)
                ∙ ap (λ r. decimal c ∷ r) (split_plain dot (decimal d) (no_dot d))))

module _ (a b c d : ℕ) (ha : a < 256) (hb : b < 256) (hc : c < 256) (hd : d < 256) where
  block_8 : (p : ℕ) → (address a b c d / 2 ^ 24 == p) ≡ (a == p)
  block_8 p = ground arith

  block_16 : (p q : ℕ) → q < 256 → (address a b c d / 2 ^ 16 == p * 256 + q) ≡ (a == p && b == q)
  block_16 p q hq = ground arith

  block_24 :
      (p q r : ℕ)
      → q < 256
      → r < 256
      → (address a b c d / 2 ^ 8 == (p * 256 + q) * 256 + r) ≡ (a == p && b == q && c == r)
  block_24 p q r hq hr = ground arith

  block_12 : (address a b c d / 2 ^ 20 == 2753) ≡ (a == 172 && leb 16 b && leb b 31)
  block_12 = ground arith

  block_10 : (address a b c d / 2 ^ 22 == 401) ≡ (a == 100 && leb 64 b && leb b 127)
  block_10 = ground arith

  octets_read : octets_private (some a ∷ some b ∷ some c ∷ some d ∷ []) ≡ private_octets a b c
  octets_read = ground arith

  octets_blocks : private_octets a b c ≡ in_any_block (address a b c d) private_blocks
  octets_blocks =
      ap₂ ◌||◌
        (ap₂ ◌||◌
          (ap₂ ◌||◌
            (ap₂ ◌||◌
              (ap₂ ◌||◌
                (ap₂ ◌||◌
                  (ap₂ ◌||◌
                    (ap₂ ◌||◌ (ap₂ ◌||◌ (sym (block_8 127)) (sym (block_8 0))) (sym (block_8 10)))
                    (sym block_12))
                  (sym (block_16 192 168 (omega arith))))
                (sym (block_16 169 254 (omega arith))))
              (sym block_10))
            (sym (block_24 192 0 2 (omega arith) (omega arith))))
          (sym (block_24 198 51 100 (omega arith) (omega arith))))
        (sym (block_24 203 0 113 (omega arith) (omega arith)))

  -- An address written as four numbers below 256 is taken for a private one exactly when it lies in one
  -- of the ten private CIDR blocks.
  pub is_private_ipv4_blocks :
      is_private_ipv4 (join_dots a b c d)
      ≡ in_any_block (((a * 256 + b) * 256 + c) * 256 + d) private_blocks
  unfolding is_private_ipv4
  is_private_ipv4_blocks =
      ap (λ ps. octets_private (map number_of ps)) (split-join_dots a b c d)
      ∙ rw (number_of-decimal a, number_of-decimal b, number_of-decimal c, number_of-decimal d)
          octets_read
      ∙ octets_blocks
