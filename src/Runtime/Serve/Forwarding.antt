-- ===== src/Runtime/Serve/Forwarding.antt =====
-- Which headers of a request src/runtime/proxy-serve.ts lets through.
use consensus_node.Base.{
  Text, codes, text_eq, text_eq_iff, map, keep, Bool-cases, ◌⊎◌, inl, inr, ◌≢◌, sym, Bool, true,
  false, not, ◌||◌, ◌&&◌, List, [], ◌∷◌, ◌++◌, ◌==◌, includes, if◌then◌else◌, ◌≡◌, refl, ◌∙◌, arith,
  All,
}
use consensus_node.Base.Case.{to_lower_case, to_lower_case_idem, text_lt, trim}
use consensus_node.Base.Splitting.{split}
use consensus_node.Base.Sorting.{All-sort}
use consensus_node.Runtime.Dedupe.{Headers}
use consensus_node.Runtime.Serve.{
  deny_set, hop_by_hop, tokens, consensus_control_headers, forwarded, forwarded_header_entries,
}

-- Lower case, neither denied nor one of the network's own.
abbrev pub passes : List Text → Text × Text → Bool
passes deny h =
    (to_lower_case h.0 == h.0)
    && not (includes h.0 deny)
    && not (includes h.0 consensus_control_headers)

lowered : (s : Text) → (to_lower_case (to_lower_case s) == to_lower_case s) ≡ true
lowered s = (text_eq_iff _ _).1 (to_lower_case_idem s)

both_false : (x a b : Bool) → x ≡ true → (a || b) ≡ false → (x && not a && not b) ≡ true
both_false true false false e h = refl
both_false true true b e h = cc
both_false true false true e h = cc
both_false false a b e h = cc

keeps_one :
    (deny : List Text) (k v : Text) (rest : Headers) (b : Bool)
    → (includes (to_lower_case k) deny || includes (to_lower_case k) consensus_control_headers) ≡ b
    → All (λ (h : Text × Text). passes deny h ≡ true) rest
    → All
        (λ (h : Text × Text). passes deny h ≡ true)
        (if b then rest else (to_lower_case k, v) ∷ rest)
keeps_one deny k v rest true e h = h
keeps_one deny k v rest false e h = (
  both_false (to_lower_case (to_lower_case k) == to_lower_case k) (includes (to_lower_case k) deny)
      (includes (to_lower_case k) consensus_control_headers) (lowered k) e,
  h,
)

forwarded-pass :
    (deny : List Text) (hs : Headers)
    → All (λ (h : Text × Text). passes deny h ≡ true) (forwarded deny hs)
unfolding forwarded
forwarded-pass deny [] = tt
forwarded-pass deny ((k, v) ∷ hs) =
    keeps_one deny k v (forwarded deny hs)
      (includes (to_lower_case k) deny || includes (to_lower_case k) consensus_control_headers) refl
      (forwarded-pass deny hs)

-- No piece of the text between commas is the name, but for spaces and case.
abbrev pub IsUnnamed : Text → Text → Type 0
IsUnnamed name value = All (λ piece. to_lower_case (trim piece) ≢ name) (split b',' value)

-- A header that may be forwarded: its name is in lower case, is neither a fixed hop-by-hop name nor one
-- of the control headers of the network, and is not named by any Connection header.
pub record IsForwardable (headers : Headers) (h : Text × Text) : Type 0 where
  pub is_lower : to_lower_case h.0 ≡ h.0
  pub no_hop : includes h.0 hop_by_hop ≡ false
  pub no_control : includes h.0 consensus_control_headers ≡ false
  pub unnamed :
      (h.0 ≡ [])
      ⊎ All
          (λ (c : Text × Text). (to_lower_case c.0 ≢ codes "connection") ⊎ IsUnnamed h.0 c.1)
          headers

includes-append :
    (t : Text) (xs ys : List Text) → includes t (xs ++ ys) ≡ (includes t xs || includes t ys)
includes-append t [] ys = refl
includes-append t (x ∷ xs) ys = ground (arith, includes-append t xs ys)

or_false : (a b : Bool) → (a || b) ≡ false → (a ≡ false) × (b ≡ false)
or_false false b h = (refl, h)
or_false true b h = cc

abbrev kept_tokens : List Text → List Text
kept_tokens pieces = keep (λ t. not (t == [])) (map (λ t. to_lower_case (trim t)) pieces)

differs : (b : Bool) → b ≡ true → b ≡ false → ⊥
differs true t f = cc
differs false t f = cc

token-unnamed :
    (s t : Text) (rest : List Text) (b : Bool)
    → (s == []) ≡ b
    → t ≢ []
    → includes t (if not b then s ∷ rest else rest) ≡ false
    → (s ≢ t) × (includes t rest ≡ false)
token-unnamed s t rest true empty filled h =
    (λ same. filled (sym same ∙ (text_eq_iff s []).0 empty), h)
token-unnamed s t rest false named filled h =
    let (other, after) = or_false (s == t) (includes t rest) h in
    (λ same. differs (s == t) ((text_eq_iff s t).1 same) other, after)

pieces-unnamed :
    (t : Text) (pieces : List Text)
    → t ≢ []
    → includes t (kept_tokens pieces) ≡ false
    → All (λ piece. to_lower_case (trim piece) ≢ t) pieces
unfolding keep
pieces-unnamed t [] filled h = tt
pieces-unnamed t (piece ∷ pieces) filled h =
    let (other, rest) =
      token-unnamed (to_lower_case (trim piece)) t (kept_tokens pieces) _ refl filled h in
    (other, pieces-unnamed t pieces filled rest)

connection-IsUnnamed :
    (t k v : Text) (rest : List Text) (b : Bool)
    → (to_lower_case k == codes "connection") ≡ b
    → t ≢ []
    → includes t (if b then tokens v ++ rest else rest) ≡ false
    → ((to_lower_case k ≢ codes "connection") ⊎ IsUnnamed t v) × (includes t rest ≡ false)
connection-IsUnnamed t k v rest true connection filled h =
    let (named, after) =
      or_false (includes t (tokens v)) (includes t rest)
        (sym (includes-append t (tokens v) rest) ∙ h) in
    (inr (pieces-unnamed t (split b',' v) filled named), after)
connection-IsUnnamed t k v rest false other filled h = (
  inl (λ same. differs (to_lower_case k == codes "connection") ((text_eq_iff _ _).1 same) other),
  h,
)

deny_set-IsUnnamed :
    (t : Text) (hs : Headers)
    → t ≢ []
    → includes t (deny_set hs) ≡ false
    → All (λ (c : Text × Text). (to_lower_case c.0 ≢ codes "connection") ⊎ IsUnnamed t c.1) hs
unfolding deny_set
deny_set-IsUnnamed t [] filled h = tt
deny_set-IsUnnamed t ((k, v) ∷ hs) filled h =
    let (one, rest) = connection-IsUnnamed t k v (deny_set hs) _ refl filled h in
    (one, deny_set-IsUnnamed t hs filled rest)

no_connection :
    (t : Text) (named rest : List Text) (b : Bool)
    → includes t (if b then named ++ rest else rest) ≡ false
    → includes t rest ≡ false
no_connection t named rest true h =
    (or_false (includes t named) (includes t rest) (sym (includes-append t named rest) ∙ h)).1
no_connection t named rest false h = h

deny_set-hop :
    (t : Text) (hs : Headers) → includes t (deny_set hs) ≡ false → includes t hop_by_hop ≡ false
unfolding deny_set
deny_set-hop t [] h = h
deny_set-hop t ((k, v) ∷ hs) h = deny_set-hop t hs (no_connection t (tokens v) (deny_set hs) _ h)

all_true : (a b c : Bool) → (a && not b && not c) ≡ true → (a ≡ true) × (b ≡ false) × (c ≡ false)
all_true true false false h = (refl, refl, refl)
all_true false b c h = cc
all_true true true c h = cc
all_true true false true h = cc

passes-IsForwardable :
    (headers : Headers) (h : Text × Text)
    → passes (deny_set headers) h ≡ true
    → IsForwardable headers h
passes-IsForwardable headers (k, v) passing =
    let (lower, allowed, own) =
      all_true (to_lower_case k == k) (includes k (deny_set headers))
        (includes k consensus_control_headers) passing in
    record {
      is_lower = (text_eq_iff _ _).0 lower;
      no_hop = deny_set-hop k headers allowed;
      no_control = own;
      unnamed = elim (Bool-cases (k == [])) [
        | inl empty ↦ inl ((text_eq_iff k []).0 empty)
        | inr named ↦ inr (
            deny_set-IsUnnamed k headers
              (λ same. differs (k == []) ((text_eq_iff k []).1 same) named) allowed)
      ];
    }

All-map :
    (P Q : Text × Text → Type 0) (hs : Headers)
    → ((h : Text × Text) → P h → Q h)
    → All P hs
    → All Q hs
All-map P Q [] f all = tt
All-map P Q (h ∷ hs) f (now, rest) = (f h now, All-map P Q hs f rest)

-- Every header that is forwarded has a name in lower case that is neither a fixed hop-by-hop name nor
-- one of the network's own control headers, and that no Connection header of the request names: it is
-- none of the pieces of its value between commas, but for spaces and case. An empty name is exempt from
-- the last part.
pub forwarded_header_entries_pass :
    (headers : Headers) → All (IsForwardable headers) (forwarded_header_entries headers)
unfolding forwarded_header_entries
forwarded_header_entries_pass headers =
    All-map _ _ (forwarded_header_entries headers) (passes-IsForwardable headers) (
      All-sort (λ a b. text_lt a.0 b.0) (λ (h : Text × Text). passes (deny_set headers) h ≡ true)
        (forwarded (deny_set headers) headers) (forwarded-pass (deny_set headers) headers))
