-- ===== src/Runtime/Profile/Within.antt =====
-- What the path tests of src/runtime/profile-v1.ts (`isWithin` and the like) decide.
use consensus_node.Base.{
  ℕ, Text, codes, text_eq, Bool, true, false, ◌||◌, List, [], ◌∷◌, ◌++◌, length, drop, drop_prefix,
  Option, ◌==◌, nat_eq, nat_beq_iff, text_eq_iff, text_beq, includes, if◌then◌else◌, ◌≡◌, ◌≢◌, refl,
  sym, ap, ◌∙◌, ◌⊎◌, inl, inr, arith,
}
use mathlib.Core.List.{
  Memᴰ, append-nil, head-eq_of_cons-eq, reverse, reverse-cons, reverse-append, reverse-reverse,
}
use consensus_node.Base.Splitting.{starts_with}
use consensus_node.Runtime.Url.{Url, UrlApi}
use consensus_node.Runtime.Profile.{base_path, within, some_prefix, relative_path, is_empty}

-- The path is the prefix, or goes on behind it with a slash.
abbrev pub IsWithin : Text → Text → Type 0
IsWithin path prefix = (path ≡ prefix) ⊎ ((rest : Text) × (path ≡ prefix ++ (b'/' ∷ rest)))

-- The pathname without a slash at its end.
abbrev pub IsBase : Text → Text → Type 0
IsBase pathname prefix =
    (pathname ≡ prefix ++ codes "/")
    ⊎ ((pathname ≡ prefix) × ((s : Text) → pathname ≢ s ++ codes "/"))

-- What is left of the path behind the prefix; nothing left is a slash.
abbrev pub IsRelative : Text → Text → Text → Type 0
IsRelative path prefix relative =
    ((path ≡ prefix) × (relative ≡ codes "/"))
    ⊎ ((path ≡ prefix ++ relative) × ((prefix ≡ []) ⊎ ((rest : Text) × (relative ≡ b'/' ∷ rest))))

starts_with-split : (p s : Text) → starts_with p s ≡ true → (rest : Text) × (s ≡ p ++ rest)
unfolding starts_with
starts_with-split [] s h = (s, refl)
starts_with-split (c ∷ p) [] h = cc
starts_with-split (c ∷ p) (d ∷ s) h =
    let (rest, at) = starts_with-split p s (ground arith) in
    let same : c ≡ d = (nat_beq_iff c d).0 (ground arith) in
    (rest, ap (λ l. d ∷ l) at ∙ ap (λ x. x ∷ (p ++ rest)) (sym same))

pub or_cases : (a b : Bool) → (a || b) ≡ true → (a ≡ true) ⊎ (b ≡ true)
or_cases true b h = inl refl
or_cases false b h = inr h

pub includes-Memᴰ : (t : Text) (xs : List Text) → includes t xs ≡ true → Memᴰ t xs
includes-Memᴰ t [] h = cc
includes-Memᴰ t (x ∷ xs) h = elim (or_cases (x == t) (includes t xs) h) [
  | inl same ↦ Memᴰ.head (sym ((text_eq_iff x t).0 same))
  | inr rest ↦ Memᴰ.tail (includes-Memᴰ t xs rest)
]

append_assoc_slash : (p rest : Text) → (p ++ codes "/") ++ rest ≡ p ++ (b'/' ∷ rest)
append_assoc_slash [] rest = refl
append_assoc_slash (c ∷ p) rest = ap (λ l. c ∷ l) (append_assoc_slash p rest)

behind :
    (path prefix : Text)
    → IsWithin path prefix
    → IsRelative path prefix
        (if is_empty (drop (length prefix) path) then codes "/" else drop (length prefix) path)
unfolding text_beq
behind path prefix (inl same) =
    let none_left : drop (length prefix) path ≡ [] =
      ap (λ p. drop (length prefix) p) (same ∙ sym (append-nil prefix))
      ∙ drop_prefix (length prefix) prefix [] refl in
    inl (same, ap (λ t. if is_empty t then codes "/" else t) none_left)
behind path prefix (inr (rest, at)) =
    let left : drop (length prefix) path ≡ b'/' ∷ rest =
      ap (λ p. drop (length prefix) p) at ∙ drop_prefix (length prefix) prefix (b'/' ∷ rest) refl in
    let same = ap (λ t. if is_empty t then codes "/" else t) left in
    inr (at ∙ ap (λ t. prefix ++ t) (sym same), inr (rest, same))

whole : (path : Text) → IsRelative path [] (if is_empty path then codes "/" else path)
unfolding text_beq
whole [] = inl (refl, refl)
whole (c ∷ path) = inr (refl, inl refl)

differs : (b : Bool) → b ≡ true → b ≡ false → ⊥
differs true t f = cc
differs false t f = cc

not_empty : (s : Text) → [] ≡ b'/' ∷ reverse s → ⊥
not_empty s h = cc

ending : (s : Text) → reverse (s ++ codes "/") ≡ b'/' ∷ reverse s
ending s = reverse-append s (codes "/")

cut :
    (pathname s : Text) (c : ℕ) (b : Bool)
    → reverse pathname ≡ c ∷ s
    → (c == b'/') ≡ b
    → IsBase pathname (if b then reverse s else pathname)
cut pathname s c true at slash = inl (
    sym (reverse-reverse pathname)
    ∙ (ap reverse at
        ∙ (reverse-cons c s ∙ ap (λ x. reverse s ++ (x ∷ [])) ((nat_beq_iff c b'/').0 slash))))
cut pathname s c false at other = inr (
  refl,
  λ t same.
      differs (c == b'/')
        ((nat_beq_iff c b'/').1 (head-eq_of_cons-eq (sym at ∙ (ap reverse same ∙ ending t)))) other,
)

-- The last character is cut off if it is a slash.
IsBase-cases :
    (pathname reversed : Text)
    → reverse pathname ≡ reversed
    → IsBase pathname
        (elim reversed [ [] ↦ [] | c ∷ s ↦ if c == b'/' then reverse s else pathname ])
IsBase-cases pathname [] at = inr (
  sym (reverse-reverse pathname) ∙ ap reverse at,
  λ s same. not_empty s (sym at ∙ (ap reverse same ∙ ending s)),
)
IsBase-cases pathname (c ∷ s) at = cut pathname s c _ at refl

module _ (urls : UrlApi) (parse_local : Text → Option Url) where
  pub within-IsWithin :
      (path prefix : Text) → within urls parse_local path prefix ≡ true → IsWithin path prefix
  within-IsWithin path prefix h =
      elim (or_cases (path == prefix) (starts_with (prefix ++ codes "/") path) h) [
        | inl same ↦ inl ((text_eq_iff path prefix).0 same)
        | inr longer ↦
            let (rest, at) = starts_with-split (prefix ++ codes "/") path longer in
            inr (rest, at ∙ append_assoc_slash prefix rest)
      ]

  pub some_prefix-Memᴰ :
      (path : Text) (ps : List Text)
      → some_prefix urls parse_local path ps ≡ true
      → (p : Text) × Memᴰ p ps × ((p ≡ codes "/") ⊎ IsWithin path p)
  some_prefix-Memᴰ path [] h = cc
  some_prefix-Memᴰ path (p ∷ ps) h =
      elim (or_cases (p == codes "/" || within urls parse_local path p) _ h) [
        | inl one ↦ (
          p,
          Memᴰ.head refl,
          elim (or_cases (p == codes "/") (within urls parse_local path p) one) [
            | inl root ↦ inl ((text_eq_iff p (codes "/")).0 root)
            | inr inside ↦ inr (within-IsWithin path p inside)
          ],
        )
        | inr rest ↦ let (q, m, at) = some_prefix-Memᴰ path ps rest in (q, Memᴰ.tail m, at)
      ]

  pub base_path-IsBase : (base : Url) → IsBase base.pathname (base_path urls parse_local base)
  base_path-IsBase base = rooted (base.pathname == codes "/") refl
    where
      rooted :
          (b : Bool)
          → (base.pathname == codes "/") ≡ b
          → IsBase base.pathname (
              if b then [] else elim (reverse base.pathname) [
                | [] ↦ []
                | c ∷ s ↦ if c == b'/' then reverse s else base.pathname
              ])
      rooted true root = inl ((text_eq_iff base.pathname (codes "/")).0 root)
      rooted false other = IsBase-cases base.pathname (reverse base.pathname) refl

  IsRelative-cases :
      (prefix path : Text)
      → (is_empty prefix || within urls parse_local path prefix) ≡ true
      → IsRelative path prefix
          (if is_empty (drop (length prefix) path) then codes "/" else drop (length prefix) path)
  unfolding text_beq starts_with
  IsRelative-cases [] path h = whole path
  IsRelative-cases (c ∷ prefix) path h =
      behind path (c ∷ prefix) (within-IsWithin path (c ∷ prefix) h)

  pub relative_path-IsRelative :
      (base target : Url)
      → (is_empty (base_path urls parse_local base)
          || within urls parse_local target.pathname (base_path urls parse_local base))
        ≡ true
      → IsRelative target.pathname
          (base_path urls parse_local base)
          (relative_path urls parse_local base target)
  unfolding relative_path
  relative_path-IsRelative base target h =
      IsRelative-cases (base_path urls parse_local base) target.pathname h
