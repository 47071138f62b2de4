-- ===== src/Runtime/Ssrf/Spellings.antt =====
-- One IPv4 address in all its decimal spellings, in src/runtime/ssrf.ts.
use mathlib.Core.Option
use consensus_node.Base.{
  ℕ, ◌+◌, ◌*◌, ◌/◌, ◌%◌, ◌^◌, ◌<◌, ◌≤◌, Text, true, List, [], ◌∷◌, some, ◌≡◌, refl, ap, ◌∙◌, arith,
  length, Bool-cases, inl, inr, err,
}
use consensus_node.Runtime.Ssrf.Blocks.{in_any_block, private_blocks, is_private_ipv4_blocks}
use consensus_node.Runtime.Ssrf.Forms.{
  dotted_join, normalize-dotted_join, dotted_join_plain, strip_brackets_plain,
}
use consensus_node.Runtime.Ssrf.{
  join_dots, ip32_of, dotted_of, normalize_to_ipv4, strip_brackets, is_private_ipv4,
  is_private_ipv6_bare, resolve_literal, resolve_host, Lookup, DnsCache, forbidden,
}

-- A number, two, three or four of them: the last one takes what is left of the 32 bits.
pub data Spelling : Type 0 where
  one two three four : Spelling

module _ (a b c d : ℕ) where
  abbrev pub spelled : Spelling → Text
  spelled one = dotted_join (((a * 256 + b) * 256 + c) * 256 + d) []
  spelled two = dotted_join a (((b * 256 + c) * 256 + d) ∷ [])
  spelled three = dotted_join a (b ∷ (c * 256 + d) ∷ [])
  spelled four = dotted_join a (b ∷ c ∷ d ∷ [])

  module _ (ha : a < 256) (hb : b < 256) (hc : c < 256) (hd : d < 256) where
    dotted_of_parts :
        (n : ℕ) → n ≡ ((a * 256 + b) * 256 + c) * 256 + d → dotted_of n ≡ join_dots a b c d
    unfolding dotted_of
    dotted_of_parts n e = cc (first n e, second n e, third n e, fourth n e)
      where
        first : (n : ℕ) → n ≡ ((a * 256 + b) * 256 + c) * 256 + d → n / 2 ^ 24 % 256 ≡ a
        first n e = omega arith

        second : (n : ℕ) → n ≡ ((a * 256 + b) * 256 + c) * 256 + d → n / 2 ^ 16 % 256 ≡ b
        second n e = omega arith

        third : (n : ℕ) → n ≡ ((a * 256 + b) * 256 + c) * 256 + d → n / 2 ^ 8 % 256 ≡ c
        third n e = omega arith

        fourth : (n : ℕ) → n ≡ ((a * 256 + b) * 256 + c) * 256 + d → n % 256 ≡ d
        fourth n e = omega arith

    ip32_one :
        ip32_of ((((a * 256 + b) * 256 + c) * 256 + d) ∷ [])
        ≡ some (((a * 256 + b) * 256 + c) * 256 + d)
    unfolding ip32_of
    ip32_one = ground arith

    ip32_two :
        ip32_of (a ∷ ((b * 256 + c) * 256 + d) ∷ []) ≡ some (((a * 256 + b) * 256 + c) * 256 + d)
    unfolding ip32_of
    ip32_two = ground arith

    ip32_three : ip32_of (a ∷ b ∷ (c * 256 + d) ∷ []) ≡ some (((a * 256 + b) * 256 + c) * 256 + d)
    unfolding ip32_of
    ip32_three = ground arith

    ip32_four : ip32_of (a ∷ b ∷ c ∷ d ∷ []) ≡ some (((a * 256 + b) * 256 + c) * 256 + d)
    unfolding ip32_of
    ip32_four = ground arith

    read :
        (n : ℕ) (ns : List ℕ)
        → length ns ≤ 3
        → ip32_of (n ∷ ns) ≡ some (((a * 256 + b) * 256 + c) * 256 + d)
        → normalize_to_ipv4 (dotted_join n ns) ≡ some (join_dots a b c d)
    read n ns h e =
        normalize-dotted_join n ns h
        ∙ (ap (Option.map dotted_of) e ∙ ap some (dotted_of_parts _ refl))

    -- The four decimal spellings of an address, as one number, two, three or four, are all read as the
    -- same four octets.
    pub normalize_to_ipv4-spelled :
        (s : Spelling) → normalize_to_ipv4 (spelled s) ≡ some (join_dots a b c d)
    normalize_to_ipv4-spelled one = read _ [] (omega arith) ip32_one
    normalize_to_ipv4-spelled two = read a _ (omega arith) ip32_two
    normalize_to_ipv4-spelled three = read a _ (omega arith) ip32_three
    normalize_to_ipv4-spelled four = read a _ (omega arith) ip32_four

    spelled_bare : (s : Spelling) → strip_brackets (spelled s) ≡ spelled s
    spelled_bare one = strip_brackets_plain _ (dotted_join_plain _ [])
    spelled_bare two = strip_brackets_plain _ (dotted_join_plain a (((b * 256 + c) * 256 + d) ∷ []))
    spelled_bare three = strip_brackets_plain _ (dotted_join_plain a (b ∷ (c * 256 + d) ∷ []))
    spelled_bare four = strip_brackets_plain _ (dotted_join_plain a (b ∷ c ∷ d ∷ []))

    literal_refused :
        (hostname : Text) (now later : ℕ) (lookup : Lookup) (cache : DnsCache)
        → is_private_ipv4 (join_dots a b c d) ≡ true
        → resolve_literal hostname now later lookup cache (some (join_dots a b c d))
          ≡ (err forbidden, cache)
    unfolding resolve_literal
    literal_refused hostname now later lookup cache h = rw h refl

    -- A host that is an address in one of the ten private blocks, in any of its decimal spellings, is
    -- refused before any lookup, and the cache stays as it is.
    pub resolve_host_private :
        (s : Spelling) (now later : ℕ) (lookup : Lookup) (cache : DnsCache)
        → in_any_block (((a * 256 + b) * 256 + c) * 256 + d) private_blocks ≡ true
        → resolve_host (spelled s) now later lookup cache ≡ (err forbidden, cache)
    unfolding resolve_host
    resolve_host_private s now later lookup cache h =
        elim (Bool-cases (is_private_ipv6_bare (strip_brackets (spelled s)))) [
          | inl t ↦ rw t refl
          | inr f ↦ rw f (
              ap (resolve_literal (spelled s) now later lookup cache)
                (ap normalize_to_ipv4 (spelled_bare s) ∙ normalize_to_ipv4-spelled s)
              ∙ literal_refused (spelled s) now later lookup cache
                  (is_private_ipv4_blocks a b c d ha hb hc hd ∙ h))
        ]
