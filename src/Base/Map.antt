-- ===== src/Base/Map.antt =====
-- JavaScript's `Map`: an association list in insertion order. A `set` of a key that is there keeps
-- its place, and a new key goes to the end.
use mathlib.Core.Path.{◌≡◌, refl, sym, ap, ◌∙◌}
use mathlib.Core.Logic.{inl, inr}
use mathlib.Core.Bool.{Bool, true, false}
use mathlib.Core.Option.{Option, none, some}
use mathlib.Core.List.{List, [], ◌∷◌}
use Prim.Native.Nat.{◌+◌, ◌≤◌}
use native.Mathlib.Omega.{arith}
use consensus_node.Base.Tests.{EqTest, ◌==◌, ==_ne, Bool-cases, if◌then◌else◌}
use consensus_node.Base.Lists.{length}

true≢false : true ≡ false → ⊥
true≢false h = cc

if_same : (b : Bool) {x : Bool} → x ≡ false → (if b then false else x) ≡ false
if_same true h = refl
if_same false h = h

module _ {ℓ κ} {K : Type ℓ} {V : Type κ} ⦃e : EqTest K⦄ where
  -- map.get(k)
  unfoldable pub get : K → List (K × V) → Option V
  get k [] = none
  get k ((j, v) ∷ m) = if j == k then some v else get k m

  -- map.has(k)
  unfoldable pub has : K → List (K × V) → Bool
  has k [] = false
  has k ((j, v) ∷ m) = if j == k then true else has k m

  -- map.set(k, v)
  unfoldable pub set : K → V → List (K × V) → List (K × V)
  set k v [] = (k, v) ∷ []
  set k v ((j, w) ∷ m) = if j == k then (j, v) ∷ m else (j, w) ∷ set k v m

  -- map.delete(k)
  unfoldable pub delete : K → List (K × V) → List (K × V)
  delete k [] = []
  delete k ((j, v) ∷ m) = let rest = delete k m in if j == k then rest else (j, v) ∷ rest

  pub get-nil : (k : K) → get k [] ≡ none
  unfolding get
  get-nil k = refl

  pub get-cons :
      (k j : K) (v : V) (m : List (K × V))
      → get j ((k, v) ∷ m) ≡ (if k == j then some v else get j m)
  unfolding get
  get-cons k j v m = refl

  pub get-set :
      (k j : K) (v : V) (m : List (K × V))
      → get j (set k v m) ≡ (if k == j then some v else get j m)
  unfolding get set
  get-set k j v [] = refl
  get-set k j v ((i, w) ∷ m) =
      ground (arith, e.same_iff k j, e.same_iff i k, e.same_iff i j, get-set k j v m)

  pub get-set_same : (k : K) (v : V) (m : List (K × V)) → get k (set k v m) ≡ some v
  get-set_same k v m =
      get-set k k v m ∙ ap (λ b. if b then some v else get k m) ((e.same_iff k k).1 refl)

  pub get-delete :
      (k j : K) (m : List (K × V)) → get j (delete k m) ≡ (if k == j then none else get j m)
  unfolding get delete
  get-delete k j [] = ground arith
  get-delete k j ((i, w) ∷ m) =
      ground (arith, e.same_iff k j, e.same_iff i k, e.same_iff i j, get-delete k j m)

  pub has-set :
      (k j : K) (v : V) (m : List (K × V)) → has j (set k v m) ≡ (if k == j then true else has j m)
  unfolding has set
  has-set k j v [] = refl
  has-set k j v ((i, w) ∷ m) =
      ground (arith, e.same_iff k j, e.same_iff i k, e.same_iff i j, has-set k j v m)

  pub has-delete :
      (k j : K) (m : List (K × V)) → has j (delete k m) ≡ (if k == j then false else has j m)
  unfolding has delete
  has-delete k j [] = ground arith
  has-delete k j ((i, w) ∷ m) =
      ground (arith, e.same_iff k j, e.same_iff i k, e.same_iff i j, has-delete k j m)

  pub length-set_new :
      (k : K) (v : V) (m : List (K × V)) → has k m ≡ false → length (set k v m) ≡ length m + 1
  unfolding has set
  length-set_new k v [] h = omega arith
  length-set_new k v ((i, w) ∷ m) h = ground (arith, length-set_new k v m)

  pub length-set_old :
      (k : K) (v : V) (m : List (K × V)) → has k m ≡ true → length (set k v m) ≡ length m
  unfolding has set
  length-set_old k v [] h = cc
  length-set_old k v ((i, w) ∷ m) h = ground (arith, length-set_old k v m)

  pub length-set_le : (k : K) (v : V) (m : List (K × V)) → length (set k v m) ≤ length m + 1
  unfolding set
  length-set_le k v [] = omega arith
  length-set_le k v ((i, w) ∷ m) = ground (arith, length-set_le k v m)

  pub length-delete : (k : K) (m : List (K × V)) → length (delete k m) ≤ length m
  unfolding delete
  length-delete k [] = omega arith
  length-delete k ((i, w) ∷ m) = ground (arith, length-delete k m)

  pub get-eq-none : (k : K) (m : List (K × V)) → has k m ≡ false → get k m ≡ none
  unfolding has get
  get-eq-none k [] h = refl
  get-eq-none k ((i, w) ∷ m) h = ground (arith, get-eq-none k m)

  -- No key twice, which a map keeps.
  abbrev pub Distinct : List (K × V) → Type 0
  Distinct [] = Unit
  Distinct ((k, v) ∷ m) = (has k m ≡ false) × Distinct m

  pub Distinct-set : (k : K) (v : V) (m : List (K × V)) → Distinct m → Distinct (set k v m)
  unfolding has set
  Distinct-set k v [] d = (refl, tt)
  Distinct-set k v ((i, w) ∷ m) d = elim (Bool-cases (i == k)) [
    | inl on ↦ rw on d
    | inr off ↦ rw off (
      (has-set k i v m
          ∙ (ap (λ b. if b then true else has i m)
                (==_ne k i (λ h. absurd (true≢false (sym ((e.same_iff i k).1 (sym h)) ∙ off))))
              ∙ d.0)),
      Distinct-set k v m d.1,
    )
  ]

  pub Distinct-delete : (k : K) (m : List (K × V)) → Distinct m → Distinct (delete k m)
  unfolding delete
  Distinct-delete k [] d = tt
  Distinct-delete k ((i, w) ∷ m) d = elim (Bool-cases (i == k)) [
    | inl on ↦ rw on (Distinct-delete k m d.1)
    | inr off ↦ rw off ((has-delete k i m ∙ (if_same (k == i) d.0)), Distinct-delete k m d.1)
  ]

module _ {ℓ κ} {K : Type ℓ} {V : Type κ} ⦃e : EqTest K⦄ (k j : K) (v : V) (m : List (K × V)) where
  pub get-set_at : (k == j) ≡ true → get j (set k v m) ≡ some v
  get-set_at h = get-set k j v m ∙ ap (λ b. if b then some v else get j m) h

  pub get-set_off : (k == j) ≡ false → get j (set k v m) ≡ get j m
  get-set_off h = get-set k j v m ∙ ap (λ b. if b then some v else get j m) h

module _ {ℓ κ} {K : Type ℓ} {V : Type κ} ⦃e : EqTest K⦄ (k j : K) (m : List (K × V)) where
  pub get-delete_off : (k == j) ≡ false → get j (delete k m) ≡ get j m
  get-delete_off h = get-delete k j m ∙ ap (λ b. if b then none else get j m) h

  pub get-delete_at : (k == j) ≡ true → get j (delete k m) ≡ none
  get-delete_at h = get-delete k j m ∙ ap (λ b. if b then none else get j m) h

pub ruleset map_laws = (get-set, get-delete, has-set, has-delete)
