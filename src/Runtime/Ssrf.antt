-- ===== src/Runtime/Ssrf.antt =====
-- src/runtime/ssrf.ts: which addresses a target may have. The resolver is an argument: what
-- `dns.lookup` gave. `DNS_CACHE` goes in and comes out, and the clock is read in milliseconds.
pub mod Blocks
pub mod Forms
pub mod Spellings
pub mod Safety
use consensus_node.Base.{
  ℕ, ◌+◌, ◌*◌, ◌/◌, ◌%◌, ◌^◌, ◌-◌, Text, codes, text_eq, Bool, true, false, ◌&&◌, ◌||◌, not, List,
  [], ◌∷◌, ◌++◌, Option, none, some, if◌then◌else◌, ◌==◌, nat_eq, ltb, leb, length, drop, includes,
  map, Result, ok, err, or_else,
}
use mathlib.Core.List.{reverse}
use mathlib.Core.Option
use consensus_node.Base.Map
use consensus_node.Base.Case.{to_lower_case}
use consensus_node.Base.Splitting.{split, starts_with}
use consensus_node.Base.Decimal.{decimal, is_digit, digit_value, every, parse_int, number_of}
use consensus_node.Runtime.Url.{Url, UrlApi}

abbrev pub dot : ℕ
dot = b'.'

abbrev pub colon : ℕ
colon = b':'

-- .replace(/^\[|\]$/g, '')
abbrev strip_front : ℕ → Text → Text
strip_front b [] = []
strip_front b (c ∷ s) = if c == b then s else c ∷ s

unfoldable pub strip_brackets : Text → Text
strip_brackets s = reverse (strip_front b']' (reverse (strip_front b'[' s)))

abbrev pub is_hex : ℕ → Bool
is_hex c = is_digit c || (leb b'a' c && leb c b'f')

abbrev pub is_octal : ℕ → Bool
is_octal c = leb b'0' c && leb c b'7'

abbrev pub between : ℕ → ℕ → Text → Bool
between lo hi s = leb lo (length s) && leb (length s) hi

-- \d{1,3}\.\d{1,3}\.\d{1,3}\.\d{1,3}
abbrev pub short_digits : Text → Bool
short_digits s = between 1 3 s && every is_digit s

abbrev four_short : List Text → Bool
four_short (a ∷ b ∷ c ∷ d ∷ []) =
    short_digits a && short_digits b && short_digits c && short_digits d
four_short _ = false

unfoldable pub is_dotted : Text → Bool
is_dotted s = four_short (split dot s)

-- 0{1,4}
abbrev pub is_zeros : Text → Bool
is_zeros s = between 1 4 s && every (λ c. c == b'0') s

-- [0-9a-f]{1,4}
abbrev pub is_group : Text → Bool
is_group s = between 1 4 s && every is_hex s

abbrev pub join_dots : ℕ → ℕ → ℕ → ℕ → Text
join_dots a b c d = decimal a ++ (dot ∷ decimal b ++ (dot ∷ decimal c ++ (dot ∷ decimal d)))

-- `${hi >>> 8}.${hi & 0xff}.${lo >>> 8}.${lo & 0xff}`
abbrev pub join_words : ℕ → ℕ → Text
join_words hi lo = join_dots (hi / 256) (hi % 256) (lo / 256) (lo % 256)

-- The groups of an IPv6-mapped address, as the three regular expressions at the top read them.
unfoldable pub mapped : List Text → Option Text
mapped (z1 ∷ z2 ∷ z3 ∷ z4 ∷ z5 ∷ f ∷ d ∷ []) =
    if (is_zeros z1 && is_zeros z2 && is_zeros z3 && is_zeros z4 && is_zeros z5)
      && f == codes "ffff"
      && is_dotted d
    then some d
    else none
mapped ([] ∷ [] ∷ f ∷ d ∷ []) = if f == codes "ffff" && is_dotted d then some d else none
mapped ([] ∷ [] ∷ f ∷ g ∷ h ∷ []) =
    if f == codes "ffff" && is_group g && is_group h
    then some (join_words (parse_int 16 0 g) (parse_int 16 0 h))
    else none
mapped _ = none

-- 0x[0-9a-f]+, behind its 0
abbrev pub hex_tail : Text → Bool
hex_tail [] = false
hex_tail (x ∷ ds) = x == b'x' && not (length ds == 0) && every is_hex ds

-- /^(0x[0-9a-f]+|0[0-7]*|[1-9]\d*|0)$/
unfoldable pub is_numeral : Text → Bool
is_numeral [] = false
is_numeral (c ∷ s) =
    if c == b'0' then every is_octal s || hex_tail s else is_digit c && every is_digit s

-- parseInt(p, p.startsWith('0x') ? 16 : p.startsWith('0') && p.length > 1 ? 8 : 10). A number that the
-- code finds infinite is here one that is too large for every bound below.
unfoldable pub numeral_value : Text → ℕ
numeral_value s =
    if starts_with (codes "0x") s
    then parse_int 16 0 (drop 2 s)
    else if starts_with (codes "0") s && ltb 1 (length s)
    then parse_int 8 0 s
    else parse_int 10 0 s

-- The 32 bits of one to four numbers; the parts that the code joins with `|` have no bit in common.
unfoldable pub ip32_of : List ℕ → Option ℕ
ip32_of (a ∷ []) = if ltb 0xffff_ffff a then none else some a
ip32_of (a ∷ b ∷ []) = if ltb 0xff a || ltb 0xff_ffff b then none else some (a * 2 ^ 24 + b)
ip32_of (a ∷ b ∷ c ∷ []) =
    if ltb 0xff a || ltb 0xff b || ltb 0xffff c then none else some (a * 2 ^ 24 + b * 2 ^ 16 + c)
ip32_of (a ∷ b ∷ c ∷ d ∷ []) =
    if ltb 0xff a || ltb 0xff b || ltb 0xff c || ltb 0xff d
    then none
    else some (a * 2 ^ 24 + b * 2 ^ 16 + c * 2 ^ 8 + d)
ip32_of _ = none

unfoldable pub dotted_of : ℕ → Text
dotted_of n = join_dots (n / 2 ^ 24 % 256) (n / 2 ^ 16 % 256) (n / 2 ^ 8 % 256) (n % 256)

abbrev pub all_numerals : List Text → Bool
all_numerals [] = true
all_numerals (p ∷ ps) = is_numeral p && all_numerals ps

unfoldable pub numerals : Text → Option Text
numerals s =
    let parts = split dot s in
    if ltb (length parts) 1 || ltb 4 (length parts)
    then none
    else if not (all_numerals parts)
    then none
    else Option.map dotted_of (ip32_of (map numeral_value parts))

abbrev pub or_numerals : Text → Option Text → Option Text
or_numerals s none = numerals s
or_numerals s (some d) = some d

-- What is left of it behind `const s = …`.
unfoldable pub read_ipv4 : Text → Option Text
read_ipv4 s = or_numerals s (mapped (split colon s))

unfoldable pub normalize_to_ipv4 : Text → Option Text
normalize_to_ipv4 raw = read_ipv4 (to_lower_case (strip_brackets raw))

abbrev pub private_octets : ℕ → ℕ → ℕ → Bool
private_octets a b c =
    a == 127
    || a == 0
    || a == 10
    || (a == 172 && leb 16 b && leb b 31)
    || (a == 192 && b == 168)
    || (a == 169 && b == 254)
    || (a == 100 && leb 64 b && leb b 127)
    || (a == 192 && b == 0 && c == 2)
    || (a == 198 && b == 51 && c == 100)
    || (a == 203 && b == 0 && c == 113)

abbrev pub octets_private : List (Option ℕ) → Bool
octets_private (some a ∷ some b ∷ some c ∷ some d ∷ []) =
    if ltb 255 a || ltb 255 b || ltb 255 c || ltb 255 d then false else private_octets a b c
octets_private _ = false

-- `Number` reads a group as decimal digits; what is none is NaN here.
unfoldable pub is_private_ipv4 : Text → Bool
is_private_ipv4 ip = octets_private (map number_of (split dot ip))

-- /^f[cd][0-9a-f]{2}:/
unfoldable pub is_unique_local : Text → Bool
is_unique_local (f ∷ c ∷ x ∷ y ∷ z ∷ _) =
    f == b'f' && (c == b'c' || c == b'd') && is_hex x && is_hex y && z == colon
is_unique_local _ = false

unfoldable pub is_private_ipv6_bare : Text → Bool
is_private_ipv6_bare bare =
    if bare == codes "::1"
    then true
    else if starts_with (codes "fe80:") bare
    then true
    else if is_unique_local bare
    then true
    else elim (normalize_to_ipv4 bare) [ none ↦ false | some ip ↦ is_private_ipv4 ip ]

pub record SafeResolution : Type 0 where
  pub ip : Text
  pub family : ℕ
  pub hostname : Text
  pub is_literal : Bool

pub record DnsCacheEntry : Type 0 where
  pub is_private : Bool
  pub address : Option (Text × ℕ)
  pub expires_at : ℕ

abbrev pub DnsCache : Type 0
DnsCache = List (Text × DnsCacheEntry)

abbrev pub dns_ttl_ms : ℕ
dns_ttl_ms = 30000

abbrev pub dns_neg_ttl : ℕ
dns_neg_ttl = 5000

pub record LookupAddress : Type 0 where
  pub address : Text
  pub family : ℕ

-- What `await dns.lookup` does: records, a TypeError, or another error.
pub data Lookup : Type 0 where
  found : List LookupAddress → Lookup
  type_error : Lookup
  lookup_failed : Lookup

-- Everything that is refused is a TypeError with one message, or an error of decodeURIComponent.
pub data SsrfError : Type 0 where
  forbidden : SsrfError

pub record Scan : Type 0 where
  pub safe : Option (Text × ℕ)
  pub any_private : Bool

-- `else if (!safeIp)`: an empty address is no address.
abbrev pub keep_first : Text → ℕ → Scan → Scan
keep_first address family acc = elim acc.safe [
  | none ↦ record acc { safe = if address == [] then none else some (address, family) }
  | some _ ↦ acc
]

-- One turn of the loop over the records.
unfoldable pub scan_record : LookupAddress → Scan → Scan
scan_record r acc =
    if r.family == 4
    then (if is_private_ipv4 r.address
        then record acc { any_private = true }
        else keep_first r.address 4 acc)
    else if r.family == 6
    then (if is_private_ipv6_bare (to_lower_case r.address)
        then record acc { any_private = true }
        else keep_first r.address 6 acc)
    else acc

unfoldable pub scan : List LookupAddress → Scan → Scan
scan [] acc = acc
scan (r ∷ rs) acc = scan rs (scan_record r acc)

abbrev pub blocked : ℕ → DnsCacheEntry
blocked expires_at = record { is_private = true; address = none; expires_at = expires_at }

-- What the scan found goes into the cache. No safe address is a refusal.
unfoldable pub remember :
    Text → ℕ → DnsCache → Option (Text × ℕ) → Result SsrfError SafeResolution × DnsCache
remember hostname later cache none =
    (err forbidden, Map.set hostname (blocked (later + dns_ttl_ms)) cache)
remember hostname later cache (some a) = (
  ok (record { ip = a.0; family = a.1; hostname = hostname; is_literal = false }),
  Map.set hostname
      (record { is_private = false; address = some a; expires_at = later + dns_ttl_ms }) cache,
)

-- Behind the lookup; `later` is the clock there.
unfoldable pub settle : Text → ℕ → Lookup → DnsCache → Result SsrfError SafeResolution × DnsCache
settle hostname later type_error cache = (err forbidden, cache)
settle hostname later lookup_failed cache =
    (err forbidden, Map.set hostname (blocked (later + dns_neg_ttl)) cache)
settle hostname later (found records) cache =
    let acc = scan records (record { safe = none; any_private = false }) in
    remember hostname later cache (if acc.any_private then none else acc.safe)

abbrev pub fresh_entry : ℕ → Option DnsCacheEntry → Option DnsCacheEntry
fresh_entry now none = none
fresh_entry now (some e) = if ltb now e.expires_at then some e else none

unfoldable pub from_cache : Text → Option (Text × ℕ) → Result SsrfError SafeResolution
from_cache hostname none = err forbidden
from_cache hostname (some a) =
    if a.0 == []
    then err forbidden
    else ok (record { ip = a.0; family = a.1; hostname = hostname; is_literal = false })

-- A cached answer while it is fresh, else a lookup.
unfoldable pub serve :
    Text → ℕ → Lookup → DnsCache → Option DnsCacheEntry → Result SsrfError SafeResolution × DnsCache
serve hostname later lookup cache none = settle hostname later lookup cache
serve hostname later lookup cache (some e) =
    (from_cache hostname (if e.is_private then none else e.address), cache)

unfoldable pub resolve_name :
    Text → ℕ → ℕ → Lookup → DnsCache → Result SsrfError SafeResolution × DnsCache
resolve_name hostname now later lookup cache =
    serve hostname later lookup cache (fresh_entry now (Map.get hostname cache))

-- A literal address, or a name.
unfoldable pub resolve_literal :
    Text → ℕ → ℕ → Lookup → DnsCache → Option Text → Result SsrfError SafeResolution × DnsCache
resolve_literal hostname now later lookup cache none = resolve_name hostname now later lookup cache
resolve_literal hostname now later lookup cache (some ip) = (
  if is_private_ipv4 ip
      then err forbidden
      else ok (record { ip = ip; family = 4; hostname = ip; is_literal = true }),
  cache,
)

unfoldable pub resolve_host :
    Text → ℕ → ℕ → Lookup → DnsCache → Result SsrfError SafeResolution × DnsCache
resolve_host hostname now later lookup cache =
    let bare = strip_brackets hostname in
    if is_private_ipv6_bare bare
    then (err forbidden, cache)
    else resolve_literal hostname now later lookup cache (normalize_to_ipv4 bare)

-- decodeURIComponent changes, or refuses, exactly the texts with a percent sign.
unfoldable pub resolve_parsed :
    ℕ → ℕ → Lookup → DnsCache → Option Url → Result SsrfError SafeResolution × DnsCache
resolve_parsed now later lookup cache none = (err forbidden, cache)
resolve_parsed now later lookup cache (some parsed) =
    if not (parsed.protocol == codes "http:" || parsed.protocol == codes "https:")
    then (err forbidden, cache)
    else if includes b'%' parsed.hostname
    then (err forbidden, cache)
    else resolve_host (to_lower_case parsed.hostname) now later lookup cache

module _ (urls : UrlApi) where
  unfoldable pub resolve_and_check_target :
      Text → ℕ → ℕ → Lookup → DnsCache → Result SsrfError SafeResolution × DnsCache
  resolve_and_check_target url now later lookup cache =
      resolve_parsed now later lookup cache (urls.parse url)

  unfoldable pub is_private_target : Text → ℕ → ℕ → Lookup → DnsCache → Bool × DnsCache
  is_private_target url now later lookup cache =
      let (result, after) = resolve_and_check_target url now later lookup cache in
      (elim result [ ok _ ↦ false | err _ ↦ true ], after)
