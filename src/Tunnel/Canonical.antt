-- ===== src/Tunnel/Canonical.antt =====
-- src/crypto/canonical-json.ts: the form of a value that is hashed and signed. `output[key] = …` gives
-- the object no field of the name __proto__.
use consensus_node.Base.{
  Text, text_eq, text_eq_iff, codes, Bool, true, false, Option, some, ◌==◌, ==_ne, if◌then◌else◌,
  ◌≡◌, ◌≢◌, refl, sym, ap, ◌∙◌,
}
use mathlib.Core.Option
use consensus_node.Base.Keys.{key_lt, key_lt_self}
use consensus_node.Base.Json.{
  Json, null, bool, num, str, arr, obj, Items, nil, cons, Fields, end, field, lookup,
}

abbrev pub proto_key : Text
proto_key = codes "__proto__"

unfoldable pub insert_key : Text → Json → Fields → Fields
insert_key k v end = field k v end
insert_key k v (field j w fs) =
    let rest = insert_key k v fs in if key_lt j k then field j w rest else field k v (field j w fs)

abbrev put : Text → Json → Fields → Fields
put k v fs = if k == proto_key then fs else insert_key k v fs

unfoldable mutual
  pub sort_value : Json → Json
  sort_value null = null
  sort_value (bool b) = bool b
  sort_value (num n) = num n
  sort_value (str s) = str s
  sort_value (arr xs) = arr (sort_items xs)
  sort_value (obj fs) = obj (sort_fields fs)

  pub sort_items : Items → Items
  sort_items nil = nil
  sort_items (cons x xs) = cons (sort_value x) (sort_items xs)

  pub sort_fields : Fields → Fields
  sort_fields end = end
  sort_fields (field k v fs) = put k (sort_value v) (sort_fields fs)

abbrev first : Text → Text → Json → Option Json → Option Json
first q k v rest = if k == q then some v else rest

same_key : (j k q : Text) → (j == q) ≡ true → (k == q) ≡ true → key_lt j k ≡ true → true ≡ false
same_key j k q here there lower =
    let same : j ≡ k = (text_eq_iff j q).0 here ∙ sym ((text_eq_iff k q).0 there) in
    sym lower ∙ (ap (λ x. key_lt x k) same ∙ key_lt_self k)

swap :
    (j k q : Text) (v w : Json) (rest : Option Json) (a b : Bool)
    → (j == q) ≡ a
    → (k == q) ≡ b
    → key_lt j k ≡ true
    → (if a then some w else if b then some v else rest)
      ≡ (if b then some v else if a then some w else rest)
swap j k q v w rest true true here there lower =
    absurd (true_not_false (same_key j k q here there lower))
  where
    true_not_false : true ≡ false → ⊥
    true_not_false e = cc
swap j k q v w rest true false here there lower = refl
swap j k q v w rest false true here there lower = refl
swap j k q v w rest false false here there lower = refl

passed :
    (j k q : Text) (v w : Json) (fs inserted : Fields) (b : Bool)
    → key_lt j k ≡ b
    → lookup q inserted ≡ first q k v (lookup q fs)
    → lookup q (if b then field j w inserted else field k v (field j w fs))
      ≡ first q k v (lookup q (field j w fs))
unfolding lookup
passed j k q v w fs inserted false later h = refl
passed j k q v w fs inserted true lower h =
    ap (λ o. if j == q then some w else o) h
    ∙ swap j k q v w (lookup q fs) (j == q) (k == q) refl refl lower

lookup-insert_key :
    (q k : Text) (v : Json) (fs : Fields) → lookup q (insert_key k v fs) ≡ first q k v (lookup q fs)
unfolding lookup insert_key
lookup-insert_key q k v end = refl
lookup-insert_key q k v (field j w fs) =
    passed j k q v w fs (insert_key k v fs) (key_lt j k) refl (lookup-insert_key q k v fs)

map_first :
    (q : Text) (v : Json) (rest : Option Json) (b : Bool)
    → (if b then some (sort_value v) else Option.map sort_value rest)
      ≡ Option.map sort_value (if b then some v else rest)
map_first q v rest true = refl
map_first q v rest false = refl

lookup-put :
    (q k : Text) (v : Json) (fs : Fields)
    → q ≢ proto_key
    → lookup q (put k v fs) ≡ first q k v (lookup q fs)
lookup-put q k v fs own = by_name (k == proto_key) refl
  where
    by_name :
        (b : Bool)
        → (k == proto_key) ≡ b
        → lookup q (if b then fs else insert_key k v fs) ≡ first q k v (lookup q fs)
    by_name false other = lookup-insert_key q k v fs
    by_name true proto =
        rw (==_ne k q (λ same. own (sym same ∙ (text_eq_iff k proto_key).0 proto))) refl

-- Every field but one of that name is kept, in its own canonical form.
pub lookup-sort_fields :
    (q : Text) (fs : Fields)
    → q ≢ proto_key
    → lookup q (sort_fields fs) ≡ Option.map sort_value (lookup q fs)
unfolding lookup sort_fields
lookup-sort_fields q end own = refl
lookup-sort_fields q (field k v fs) own =
    lookup-put q k (sort_value v) (sort_fields fs) own
    ∙ (ap (λ o. if k == q then some (sort_value v) else o) (lookup-sort_fields q fs own)
        ∙ map_first q v (lookup q fs) (k == q))
