-- ===== src/Base/Sorting.antt =====
-- `array.sort((a, b) => …)`, a stable sort: an element goes in front of the first one that is not
-- before it.
use mathlib.Core.Bool.{Bool}
use mathlib.Core.List.{List, [], ◌∷◌, Perm}
use mathlib.Core.List.Perm
use consensus_node.Base.Tests.{if◌then◌else◌, if-elim, Bool-cases}
use consensus_node.Base.Lists.{All}
use mathlib.Core.Logic.{inl, inr}

module _ {ℓ} {A : Type ℓ} (before : A → A → Bool) where
  unfoldable pub insert : A → List A → List A
  insert a [] = a ∷ []
  insert a (b ∷ bs) = let rest = insert a bs in if before b a then b ∷ rest else a ∷ b ∷ bs

  unfoldable pub sort : List A → List A
  sort [] = []
  sort (a ∷ as') = insert a (sort as')

  insert-perm : (a : A) (bs : List A) → Perm (insert a bs) (a ∷ bs)
  unfolding insert
  insert-perm a [] = Perm.refl (a ∷ [])
  insert-perm a (b ∷ bs) = elim (Bool-cases (before b a)) [
    | inl e ↦ rw e (Perm.trans (Perm.cons b (insert-perm a bs)) (Perm.swap a b bs))
    | inr e ↦ rw e (Perm.refl (a ∷ b ∷ bs))
  ]

  pub sort-perm : (xs : List A) → Perm (sort xs) xs
  unfolding sort
  sort-perm [] = Perm.refl []
  sort-perm (a ∷ as') = Perm.trans (insert-perm a (sort as')) (Perm.cons a (sort-perm as'))

  module _ {κ} (P : A → Type κ) where
    All-insert : (a : A) (bs : List A) → P a → All P bs → All P (insert a bs)
    unfolding insert
    All-insert a [] p h = (p, tt)
    All-insert a (b ∷ bs) p h = if-elim (before b a) (All P) (h.0, All-insert a bs p h.1) (p, h)

    -- What holds of all elements holds of them when they are sorted.
    pub All-sort : (xs : List A) → All P xs → All P (sort xs)
    unfolding sort
    All-sort [] h = tt
    All-sort (a ∷ as') h = All-insert a (sort as') h.0 (All-sort as' h.1)
