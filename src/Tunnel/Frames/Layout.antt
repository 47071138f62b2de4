-- ===== src/Tunnel/Frames/Layout.antt =====
-- Where the fields of src/tunnel/frames.ts stand in the bytes of a frame.
use mathlib.Core.List.{append_assoc}
use consensus_node.Base.{
  ℕ, ◌+◌, ◌≡◌, refl, ap, ◌∙◌, List, [], ◌∷◌, ◌++◌, arith, length, length-append, drop,
}
use consensus_node.Base.Slices.{
  subarray, subarray_past, subarray_here, subarray_all, drop_split, drop_last,
}

abbrev pub frame_bytes : ℕ → ℕ → List ℕ → List ℕ → List ℕ → List ℕ → List ℕ → List ℕ
frame_bytes v t s n l c g = v ∷ t ∷ (s ++ (n ++ (l ++ (c ++ g))))

module _ (v t : ℕ) (s n l c g : List ℕ) (hs : length s ≡ 8) (hn : length n ≡ 12) (hl : length l ≡ 4)
    (hg : length g ≡ 16) where
  pub length-frame_bytes : length (frame_bytes v t s n l c g) ≡ 42 + length c
  length-frame_bytes = omega (
    arith,
    length-append s (n ++ (l ++ (c ++ g))),
    length-append n (l ++ (c ++ g)),
    length-append l (c ++ g),
    length-append c g,
  )

  pub version_bytes : subarray (frame_bytes v t s n l c g) 0 1 ≡ v ∷ []
  unfolding subarray
  version_bytes = refl

  pub type_bytes : subarray (frame_bytes v t s n l c g) 1 2 ≡ t ∷ []
  unfolding subarray
  type_bytes = refl

  pub sequence_bytes : subarray (frame_bytes v t s n l c g) 2 10 ≡ s
  sequence_bytes =
      subarray_past 2 0 8 (v ∷ t ∷ []) (s ++ (n ++ (l ++ (c ++ g)))) refl
      ∙ subarray_here 8 s (n ++ (l ++ (c ++ g))) hs

  pub nonce_bytes : subarray (frame_bytes v t s n l c g) 10 22 ≡ n
  nonce_bytes =
      subarray_past 2 8 20 (v ∷ t ∷ []) (s ++ (n ++ (l ++ (c ++ g)))) refl
      ∙ (subarray_past 8 0 12 s (n ++ (l ++ (c ++ g))) hs ∙ subarray_here 12 n (l ++ (c ++ g)) hn)

  pub length_bytes : subarray (frame_bytes v t s n l c g) 22 26 ≡ l
  length_bytes =
      subarray_past 2 20 24 (v ∷ t ∷ []) (s ++ (n ++ (l ++ (c ++ g)))) refl
      ∙ (subarray_past 8 12 16 s (n ++ (l ++ (c ++ g))) hs
          ∙ (subarray_past 12 0 4 n (l ++ (c ++ g)) hn ∙ subarray_here 4 l (c ++ g) hl))

  header_split : frame_bytes v t s n l c g ≡ (v ∷ t ∷ (s ++ (n ++ l))) ++ (c ++ g)
  header_split = simp append_assoc

  length-header : length (v ∷ t ∷ (s ++ (n ++ l))) ≡ 26
  length-header = omega (arith, length-append s (n ++ l), length-append n l)

  pub ciphertext_bytes :
      (k : ℕ) → length c ≡ k → subarray (frame_bytes v t s n l c g) 26 (26 + k) ≡ c
  ciphertext_bytes k hk = rw header_split (
      subarray_past 26 0 k (v ∷ t ∷ (s ++ (n ++ l))) (c ++ g) length-header
      ∙ subarray_here k c g hk)

  pub tag_bytes :
      (k : ℕ) → length c ≡ k → subarray (frame_bytes v t s n l c g) (26 + k) (26 + k + 16) ≡ g
  tag_bytes k hk = rw header_split (
      ap (subarray ((v ∷ t ∷ (s ++ (n ++ l))) ++ (c ++ g)) (26 + k)) (omega arith)
      ∙ (subarray_past 26 k (k + 16) (v ∷ t ∷ (s ++ (n ++ l))) (c ++ g) length-header
          ∙ (ap (λ a. subarray (c ++ g) a (k + 16)) (omega arith)
              ∙ (subarray_past k 0 16 c g hk ∙ subarray_all 16 g hg))))

-- Bytes of the length that the header announces are the concatenation of their fields.
pub split_frame :
    (raw : List ℕ) (v t k : ℕ)
    → length raw ≡ 26 + k + 16
    → subarray raw 0 1 ≡ v ∷ []
    → subarray raw 1 2 ≡ t ∷ []
    → raw
      ≡ frame_bytes v t
          (subarray raw 2 10)
          (subarray raw 10 22)
          (subarray raw 22 26)
          (subarray raw 26 (26 + k))
          (subarray raw (26 + k) (26 + k + 16))
split_frame raw v t k h hv ht =
    drop_split raw 0 1 (omega arith) ∙ (rw (hv, drop_split raw 1 2 (omega arith), ht, tail))
  where
    tail :
        drop 2 raw
        ≡ subarray raw 2 10
          ++ (subarray raw 10 22
              ++ (subarray raw 22 26
                  ++ (subarray raw 26 (26 + k) ++ subarray raw (26 + k) (26 + k + 16))))
    tail =
        drop_split raw 2 10 (omega arith)
        ∙ ap (◌++◌ (subarray raw 2 10)) (
            drop_split raw 10 22 (omega arith)
            ∙ ap (◌++◌ (subarray raw 10 22)) (
                drop_split raw 22 26 (omega arith)
                ∙ ap (◌++◌ (subarray raw 22 26)) (
                    drop_split raw 26 (26 + k) (omega arith)
                    ∙ ap (◌++◌ (subarray raw 26 (26 + k)))
                        (drop_last raw (26 + k) (26 + k + 16) (omega arith) h))))
