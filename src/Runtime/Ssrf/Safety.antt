-- ===== src/Runtime/Ssrf/Safety.antt =====
-- The addresses that src/runtime/ssrf.ts gives out, and its cache of lookups.
use consensus_node.Base.{
  ℕ, ◌+◌, ◌⊎◌, Text, text_eq, Bool, true, false, not, ◌||◌, ◌&&◌, List, [], ◌∷◌, Option, none, some,
  if◌then◌else◌, ◌==◌, nat_eq, Result, ok, err, ◌≡◌, refl, arith, All, includes, Bool-cases, inl,
  inr, codes,
}
use consensus_node.Base.Map
use consensus_node.Base.Case.{to_lower_case}
use consensus_node.Runtime.Url.{Url, UrlApi}
use consensus_node.Runtime.Ssrf.{
  SafeResolution, DnsCacheEntry, DnsCache, LookupAddress, Lookup, found, type_error, lookup_failed,
  SsrfError, Scan, is_private_ipv4, is_private_ipv6_bare, strip_brackets, scan_record, scan,
  remember, settle, from_cache, fresh_entry, serve, resolve_literal, resolve_parsed, forbidden,
  resolve_name, resolve_host, resolve_and_check_target,
}

-- An address of a family that the code knows, in no private range of that family.
abbrev pub verified : Text → ℕ → Bool
verified ip family =
    (family == 4 && not (is_private_ipv4 ip))
    || (family == 6 && not (is_private_ipv6_bare (to_lower_case ip)))

abbrev pub address_verified : Option (Text × ℕ) → Bool
address_verified none = true
address_verified (some a) = verified a.0 a.1

abbrev pub SafeCache : DnsCache → Type 0
SafeCache = All (λ (e : Text × DnsCacheEntry). address_verified e.1.address ≡ true)

-- A result that is an address has a verified one.
abbrev pub SafeResult : Result SsrfError SafeResolution → Type 0
SafeResult (ok r) = verified r.ip r.family ≡ true
SafeResult (err e) = Unit

-- A record that the loop does not take for a private one.
abbrev pub public_record : LookupAddress → Bool
public_record r = not (
    (r.family == 4 && is_private_ipv4 r.address)
    || (r.family == 6 && is_private_ipv6_bare (to_lower_case r.address)))

scan_record-verified :
    (r : LookupAddress) (acc : Scan)
    → address_verified acc.safe ≡ true
    → address_verified (scan_record r acc).safe ≡ true
unfolding scan_record
scan_record-verified r acc h = ground arith

scan-verified :
    (rs : List LookupAddress) (acc : Scan)
    → address_verified acc.safe ≡ true
    → address_verified (scan rs acc).safe ≡ true
unfolding scan
scan-verified [] acc h = h
scan-verified (r ∷ rs) acc h = scan-verified rs (scan_record r acc) (scan_record-verified r acc h)

scan_record-private :
    (r : LookupAddress) (acc : Scan)
    → (scan_record r acc).any_private ≡ (acc.any_private || not (public_record r))
unfolding scan_record
scan_record-private r acc = ground arith

scan-public :
    (rs : List LookupAddress) (acc : Scan)
    → (scan rs acc).any_private ≡ false
    → (acc.any_private ≡ false) × All (λ (r : LookupAddress). public_record r ≡ true) rs
unfolding scan
scan-public [] acc h = (h, tt)
scan-public (r ∷ rs) acc h =
    let (before, rest) = scan-public rs (scan_record r acc) h in
    (ground (arith, scan_record-private r acc), (ground (arith, scan_record-private r acc), rest))

SafeCache-set :
    (k : Text) (e : DnsCacheEntry) (cache : DnsCache)
    → address_verified e.address ≡ true
    → SafeCache cache
    → SafeCache (Map.set k e cache)
unfolding Map.set
SafeCache-set k e [] v h = (v, tt)
SafeCache-set k e ((j, d) ∷ m) v h = elim (Bool-cases (j == k)) [
  | inl t ↦ rw t (v, h.1)
  | inr f ↦ rw f (h.0, SafeCache-set k e m v h.1)
]

SafeCache-get :
    (k : Text) (cache : DnsCache) (e : DnsCacheEntry)
    → SafeCache cache
    → Map.get k cache ≡ some e
    → address_verified e.address ≡ true
unfolding Map.get
SafeCache-get k [] e h g = cc
SafeCache-get k ((j, d) ∷ m) e h g = ground (arith, SafeCache-get k m e h.1)

if-elim {ℓ κ} :
    {A : Type ℓ} (b : Bool) (P : A → Type κ) {x y : A} → P x → P y → P (if b then x else y)
if-elim true P h k = h
if-elim false P h k = k

-- Both parts of an outcome.
abbrev SafeOutcome : Result SsrfError SafeResolution × DnsCache → Type 0
SafeOutcome p = SafeResult p.0 × SafeCache p.1

remember-Safe :
    (hostname : Text) (later : ℕ) (cache : DnsCache) (o : Option (Text × ℕ))
    → address_verified o ≡ true
    → SafeCache cache
    → SafeOutcome (remember hostname later cache o)
unfolding remember
remember-Safe hostname later cache none v h = (tt, SafeCache-set hostname _ cache refl h)
remember-Safe hostname later cache (some a) v h = (v, SafeCache-set hostname _ cache v h)

settle-Safe :
    (hostname : Text) (later : ℕ) (lookup : Lookup) (cache : DnsCache)
    → SafeCache cache
    → SafeOutcome (settle hostname later lookup cache)
unfolding settle
settle-Safe hostname later type_error cache h = (tt, h)
settle-Safe hostname later lookup_failed cache h = (tt, SafeCache-set hostname _ cache refl h)
settle-Safe hostname later (found rs) cache h =
    remember-Safe hostname later cache _
      (ground (arith, scan-verified rs (record { safe = none; any_private = false }) refl)) h

from_cache-Safe :
    (hostname : Text) (o : Option (Text × ℕ))
    → address_verified o ≡ true
    → SafeResult (from_cache hostname o)
unfolding from_cache
from_cache-Safe hostname none v = tt
from_cache-Safe hostname (some a) v = if-elim (a.0 == []) (λ o. SafeResult o) tt v

serve-Safe :
    (hostname : Text) (later : ℕ) (lookup : Lookup) (cache : DnsCache) (o : Option DnsCacheEntry)
    → ((e : DnsCacheEntry) → o ≡ some e → address_verified e.address ≡ true)
    → SafeCache cache
    → SafeOutcome (serve hostname later lookup cache o)
unfolding serve
serve-Safe hostname later lookup cache none v h = settle-Safe hostname later lookup cache h
serve-Safe hostname later lookup cache (some e) v h =
    (from_cache-Safe hostname _ (ground (arith, v e refl)), h)

fresh_entry-eq :
    (now : ℕ) (o : Option DnsCacheEntry) (e : DnsCacheEntry)
    → fresh_entry now o ≡ some e
    → o ≡ some e
fresh_entry-eq now none e h = cc
fresh_entry-eq now (some d) e h = ground arith

resolve_name-Safe :
    (hostname : Text) (now later : ℕ) (lookup : Lookup) (cache : DnsCache)
    → SafeCache cache
    → SafeOutcome (resolve_name hostname now later lookup cache)
unfolding resolve_name
resolve_name-Safe hostname now later lookup cache h =
    serve-Safe hostname later lookup cache _
      (λ e f. SafeCache-get hostname cache e h (fresh_entry-eq now (Map.get hostname cache) e f)) h

resolve_literal-Safe :
    (hostname : Text) (now later : ℕ) (lookup : Lookup) (cache : DnsCache) (o : Option Text)
    → SafeCache cache
    → SafeOutcome (resolve_literal hostname now later lookup cache o)
unfolding resolve_literal
resolve_literal-Safe hostname now later lookup cache none h =
    resolve_name-Safe hostname now later lookup cache h
resolve_literal-Safe hostname now later lookup cache (some ip) h =
    elim (Bool-cases (is_private_ipv4 ip)) [ inl t ↦ rw t (tt, h) | inr f ↦ rw f (rw f refl, h) ]

resolve_host-Safe :
    (hostname : Text) (now later : ℕ) (lookup : Lookup) (cache : DnsCache)
    → SafeCache cache
    → SafeOutcome (resolve_host hostname now later lookup cache)
unfolding resolve_host
resolve_host-Safe hostname now later lookup cache h =
    elim (Bool-cases (is_private_ipv6_bare (strip_brackets hostname))) [
      | inl t ↦ rw t (tt, h)
      | inr f ↦ rw f (resolve_literal-Safe hostname now later lookup cache _ h)
    ]

resolve_parsed-Safe :
    (now later : ℕ) (lookup : Lookup) (cache : DnsCache) (parsed : Option Url)
    → SafeCache cache
    → SafeOutcome (resolve_parsed now later lookup cache parsed)
unfolding resolve_parsed
resolve_parsed-Safe now later lookup cache none h = (tt, h)
resolve_parsed-Safe now later lookup cache (some u) h =
    if-elim (not (u.protocol == codes "http:" || u.protocol == codes "https:")) SafeOutcome (tt, h)
      (if-elim (includes b'%' u.hostname) SafeOutcome (tt, h)
        (resolve_host-Safe (to_lower_case u.hostname) now later lookup cache h))

module _ (urls : UrlApi) where
  -- Every address that is given out, from a literal, from the cache or from a lookup whatever the
  -- resolver answers, is one that the checks of its family find public, as long as the cache holds
  -- only such addresses; and it still does afterwards.
  pub resolve_and_check_target_safe :
      (url : Text) (now later : ℕ) (lookup : Lookup) (cache : DnsCache)
      → SafeCache cache
      → SafeResult (resolve_and_check_target urls url now later lookup cache).0
        × SafeCache (resolve_and_check_target urls url now later lookup cache).1
  unfolding resolve_and_check_target
  resolve_and_check_target_safe url now later lookup cache h =
      resolve_parsed-Safe now later lookup cache (urls.parse url) h

refusal :
    (hostname : Text) (later : ℕ) (cache : DnsCache)
    → remember hostname later cache none ≡ (
      err forbidden,
      Map.set hostname
          (record { is_private = true; address = none; expires_at = later + 30000 })
          cache,
    )
unfolding remember
refusal hostname later cache = refl

-- A name is let through by a lookup only when every record that the resolver gave is public: one
-- private address among them is enough for a refusal, and the refusal is cached for 30 seconds.
pub settle-All_public :
    (hostname : Text) (later : ℕ) (records : List LookupAddress) (cache : DnsCache)
    → (All (λ (r : LookupAddress). public_record r ≡ true) records)
      ⊎ (settle hostname later (found records) cache ≡ (
        err forbidden,
        Map.set hostname
            (record { is_private = true; address = none; expires_at = later + 30000 })
            cache,
      ))
unfolding settle
settle-All_public hostname later rs cache =
    elim (Bool-cases (scan rs (record { safe = none; any_private = false })).any_private) [
      | inl t ↦ inr (rw t (refusal hostname later cache))
      | inr f ↦ inl (scan-public rs (record { safe = none; any_private = false }) f).1
    ]
