-- ===== src/Base/Slices.antt =====
-- `buffer.subarray(start, end)`, and how slices of a concatenation are found.
use Prim.Native.Nat.{ℕ, zero, suc, ◌+◌, ◌-◌, ◌≤◌}
use mathlib.Core.Path.{◌≡◌, refl, ap, sym, ◌∙◌}
use mathlib.Core.List.{List, [], ◌∷◌, ◌++◌, append-nil}
use native.Mathlib.Omega.{arith}
use consensus_node.Base.Lists.{
  All, All-take, All-drop, length, take, drop, take_prefix, take_all, length-take, length-drop,
  take-append-drop,
}

module _ {ℓ} {A : Type ℓ} where
  unfoldable pub subarray : List A → ℕ → ℕ → List A
  subarray xs start end = take (end - start) (drop start xs)

  drop_past : (n a : ℕ) (xs ys : List A) → length xs ≡ n → drop (n + a) (xs ++ ys) ≡ drop a ys
  drop_past zero a [] ys h = ap (λ k. drop k ys) (omega arith)
  drop_past zero a (x ∷ xs) ys h = absurd (omega arith)
  drop_past (suc n) a [] ys h = absurd (omega arith)
  drop_past (suc n) a (x ∷ xs) ys h =
      ap (λ k. drop k (x ∷ (xs ++ ys))) suc-add ∙ drop_past n a xs ys (omega arith)
    where
      suc-add : suc n + a ≡ suc (n + a)
      suc-add = omega arith

  drop-nil : (n : ℕ) → drop {A = A} n [] ≡ []
  drop-nil zero = refl
  drop-nil (suc n) = refl

  pub drop-drop : (a b : ℕ) (xs : List A) → drop (a + b) xs ≡ drop b (drop a xs)
  drop-drop zero b xs = ap (λ k. drop k xs) (omega arith)
  drop-drop (suc a) b [] = drop-nil (suc a + b) ∙ sym (drop-nil b)
  drop-drop (suc a) b (x ∷ xs) = ap (λ k. drop k (x ∷ xs)) suc-add ∙ drop-drop a b xs
    where
      suc-add : suc a + b ≡ suc (a + b)
      suc-add = omega arith

  -- A slice behind the first part, and a slice that is the first part.
  pub subarray_past :
      (n a b : ℕ) (xs ys : List A)
      → length xs ≡ n
      → subarray (xs ++ ys) (n + a) (n + b) ≡ subarray ys a b
  unfolding subarray
  subarray_past n a b xs ys h =
      ap (λ k. take k (drop (n + a) (xs ++ ys))) (omega arith)
      ∙ ap (take (b - a)) (drop_past n a xs ys h)

  pub subarray_here : (n : ℕ) (xs ys : List A) → length xs ≡ n → subarray (xs ++ ys) 0 n ≡ xs
  unfolding subarray
  subarray_here n xs ys h = ap (λ k. take k (xs ++ ys)) (omega arith) ∙ take_prefix n xs ys h

  pub subarray_all : (n : ℕ) (xs : List A) → length xs ≡ n → subarray xs 0 n ≡ xs
  unfolding subarray
  subarray_all n xs h = ap (λ k. take k xs) (omega arith) ∙ take_all n xs (omega arith)

  pub length-subarray : (xs : List A) (a b : ℕ) → b ≤ length xs → length (subarray xs a b) ≡ b - a
  unfolding subarray
  length-subarray xs a b h = omega (arith, length-take (b - a) (drop a xs), length-drop a xs)

  -- What is left from `a` on is the slice up to `b` and what is left from `b` on.
  pub drop_split : (xs : List A) (a b : ℕ) → a ≤ b → drop a xs ≡ subarray xs a b ++ drop b xs
  unfolding subarray
  drop_split xs a b h =
      sym (take-append-drop (b - a) (drop a xs))
      ∙ ap (λ r. take (b - a) (drop a xs) ++ r)
          (sym (drop-drop a (b - a) xs) ∙ ap (λ k. drop k xs) (omega arith))

  drop_long : (n : ℕ) (xs : List A) → length xs ≤ n → drop n xs ≡ []
  drop_long n [] h = drop-nil n
  drop_long zero (x ∷ xs) h = absurd (omega arith)
  drop_long (suc n) (x ∷ xs) h = drop_long n xs (omega arith)

  pub drop_last : (xs : List A) (a b : ℕ) → a ≤ b → length xs ≡ b → drop a xs ≡ subarray xs a b
  drop_last xs a b h e =
      drop_split xs a b h
      ∙ (ap (λ r. subarray xs a b ++ r) (drop_long b xs (omega arith))
          ∙ append-nil (subarray xs a b))

  pub All-subarray {κ} :
      (P : A → Type κ) (xs : List A) (a b : ℕ) → All P xs → All P (subarray xs a b)
  unfolding subarray
  All-subarray P xs a b h = All-take P (b - a) (drop a xs) (All-drop P a xs h)

  pub subarray_suffix :
      (k : ℕ) (xs ys : List A)
      → length ys ≡ k
      → subarray (xs ++ ys) (length xs) (length xs + k) ≡ ys
  subarray_suffix k xs ys h =
      ap (λ n. subarray (xs ++ ys) n (length xs + k)) (omega arith)
      ∙ (subarray_past (length xs) 0 k xs ys refl ∙ subarray_all k ys h)

  -- A buffer of at least `k` elements is its first part and its last `k`.
  pub subarray_ends :
      (k : ℕ) (xs : List A)
      → k ≤ length xs
      → xs ≡ subarray xs 0 (length xs - k) ++ subarray xs (length xs - k) (length xs)
  subarray_ends k xs h =
      drop_split xs 0 (length xs - k) (omega arith)
      ∙ ap (λ r. subarray xs 0 (length xs - k) ++ r)
          (drop_last xs (length xs - k) (length xs) (omega arith) refl)
