-- ===== src/Tickets/Paseto/Encoding.antt =====
-- The pre-authentication encoding of src/tickets/paseto.ts is injective.
use Prim.Native.Nat.{bit_and}
use consensus_node.Base.{
  ℕ, zero, suc, ◌<◌, ◌^◌, ◌/◌, ◌%◌, ◌≡◌, refl, ap, sym, ◌∙◌, Bool, true, ◌&&◌, List, [], ◌∷◌, ◌++◌,
  length, All, arith, nat_beq, nat_beq_iff, take, drop, take_prefix, drop_prefix,
}
use consensus_node.Base.Bytes.{little, little_value, length-little, little_value-little}
use consensus_node.Tickets.Paseto.{le64, pae_pieces, pae}

-- A test that every number below a bound passes.
every_below : (ℕ → Bool) → ℕ → Bool
every_below test zero = true
every_below test (suc bound) = every_below test bound && test bound

every_below_at :
    (test : ℕ → Bool) (bound k : ℕ) → k < bound → every_below test bound ≡ true → test k ≡ true
unfolding every_below
every_below_at test zero k below passed = absurd (omega arith)
every_below_at test (suc bound) k below passed = ground (arith, every_below_at test bound k)

mask_table : every_below (λ x. nat_beq (bit_and x 0x7f) x) 128 ≡ true
unfolding every_below
mask_table = refl

mask_low : (x : ℕ) → x < 128 → bit_and x 0x7f ≡ x
mask_low x h = (nat_beq_iff _ x).0 (every_below_at _ 128 x h mask_table)

le64-little : (n : ℕ) → n < 2 ^ 63 → le64 n ≡ little 8 n
unfolding le64 little
le64-little n h =
    ap
      (λ b.
        (n % 256)
        ∷ (n / 256 % 256)
        ∷ (n / 256 / 256 % 256)
        ∷ (n / 256 / 256 / 256 % 256)
        ∷ (n / 256 / 256 / 256 / 256 % 256)
        ∷ (n / 256 / 256 / 256 / 256 / 256 % 256)
        ∷ (n / 256 / 256 / 256 / 256 / 256 / 256 % 256)
        ∷ b
        ∷ [])
      (mask_low (n / 256 / 256 / 256 / 256 / 256 / 256 / 256 % 256) (omega arith))

-- Two encoded lengths with something behind them are told apart.
le64_prefix :
    (m n : ℕ) (xs ys : List ℕ)
    → m < 2 ^ 63
    → n < 2 ^ 63
    → le64 m ++ xs ≡ le64 n ++ ys
    → (m ≡ n) × (xs ≡ ys)
le64_prefix m n xs ys hm hn e = (
  sym (little_value-little 8 m (omega arith))
      ∙ ap little_value lengths
      ∙ little_value-little 8 n (omega arith),
  sym (drop_prefix 8 (little 8 m) xs (length-little 8 m))
      ∙ ap (drop 8) e'
      ∙ drop_prefix 8 (little 8 n) ys (length-little 8 n),
)
  where
    e' : little 8 m ++ xs ≡ little 8 n ++ ys
    e' = rw (← le64-little m hm, ← le64-little n hn) e

    lengths : little 8 m ≡ little 8 n
    lengths =
        sym (take_prefix 8 (little 8 m) xs (length-little 8 m))
        ∙ ap (take 8) e'
        ∙ take_prefix 8 (little 8 n) ys (length-little 8 n)

-- Every piece is shorter than 2^63 bytes.
abbrev pub AreShort : List (List ℕ) → Type 0
AreShort = All (λ p. length p < 2 ^ 63)

pae_pieces-injective :
    (ps qs : List (List ℕ))
    → AreShort ps
    → AreShort qs
    → length ps ≡ length qs
    → pae_pieces ps ≡ pae_pieces qs
    → ps ≡ qs
unfolding pae_pieces
pae_pieces-injective [] [] hp hq l e = refl
pae_pieces-injective [] (q ∷ qs) hp hq l e = absurd (omega arith)
pae_pieces-injective (p ∷ ps) [] hp hq l e = absurd (omega arith)
pae_pieces-injective (p ∷ ps) (q ∷ qs) hp hq l e =
    let (lp, rest) = le64_prefix (length p) (length q) _ _ hp.0 hq.0 e in
    let same : p ≡ q =
      sym (take_prefix (length p) p (pae_pieces ps) refl)
      ∙ ap (take (length p)) rest
      ∙ take_prefix (length p) q (pae_pieces qs) (sym lp) in
    let tails : pae_pieces ps ≡ pae_pieces qs =
      sym (drop_prefix (length p) p (pae_pieces ps) refl)
      ∙ ap (drop (length p)) rest
      ∙ drop_prefix (length p) q (pae_pieces qs) (sym lp) in
    cc (same, pae_pieces-injective ps qs hp.1 hq.1 (omega arith) tails)

-- Lists of pieces with the same encoding are equal: nothing can be moved from one piece to the next,
-- so a signature over the encoding covers the header, the message, the footer and the implicit
-- assertion each by itself. The counts and the lengths are below 2^63.
pub pae-injective :
    (ps qs : List (List ℕ))
    → length ps < 2 ^ 63
    → length qs < 2 ^ 63
    → AreShort ps
    → AreShort qs
    → pae ps ≡ pae qs
    → ps ≡ qs
unfolding pae
pae-injective ps qs lp lq hp hq e =
    let (n, rest) = le64_prefix (length ps) (length qs) _ _ lp lq e in
    pae_pieces-injective ps qs hp hq n rest
