-- ===== src/Base/Splitting.antt =====
-- `text.split(separator)` for a separator of one character, and `startsWith`.
use consensus_node.Base.Tests.{◌==◌, nat_eq, if◌then◌else◌}
use consensus_node.Base.Lists.{includes}
use consensus_node.Base.Texts.{Text}
use Prim.Native.Nat.{ℕ}
use mathlib.Core.Path.{◌≡◌, refl}
use mathlib.Core.Bool.{Bool, true, false, ◌&&◌}
use mathlib.Core.List.{List, [], ◌∷◌, ◌++◌}
use native.Mathlib.Omega.{arith}

-- A character before the first piece.
abbrev prepend : ℕ → List Text → List Text
prepend c [] = (c ∷ []) ∷ []
prepend c (p ∷ ps) = (c ∷ p) ∷ ps

unfoldable pub split : ℕ → Text → List Text
split sep [] = [] ∷ []
split sep (c ∷ s) = let rest = split sep s in if c == sep then [] ∷ rest else prepend c rest

unfoldable pub starts_with : Text → Text → Bool
starts_with [] s = true
starts_with (c ∷ p) [] = false
starts_with (c ∷ p) (d ∷ s) = c == d && starts_with p s

pub split_plain : (sep : ℕ) (s : Text) → includes sep s ≡ false → split sep s ≡ s ∷ []
unfolding split
split_plain sep [] h = refl
split_plain sep (c ∷ s) h = ground (arith, split_plain sep s)

-- A piece without the separator, the separator, and the rest.
pub split_append :
    (sep : ℕ) (a b : Text) → includes sep a ≡ false → split sep (a ++ (sep ∷ b)) ≡ a ∷ split sep b
unfolding split
split_append sep [] b h = ground arith
split_append sep (c ∷ a) b h = ground (arith, split_append sep a b)

pub starts_with_append : (p s : Text) → starts_with p (p ++ s) ≡ true
unfolding starts_with
starts_with_append [] s = refl
starts_with_append (c ∷ p) s = ground (arith, starts_with_append p s)
