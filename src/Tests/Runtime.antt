-- ===== src/Tests/Runtime.antt =====
-- src/runtime on concrete headers, hosts and resolver answers.
use consensus_node.Base.{
  ◌≡◌, refl, true, false, List, [], ◌∷◌, ◌++◌, some, codes, arith, text_beq, text_eq, nat_eq,
}
use consensus_node.Base.Splitting.{split, starts_with}
use consensus_node.Base.Case.{to_lower_case}
use consensus_node.Base.Decimal.{parse_int, decimal, every, number_of}
use consensus_node.Runtime.Dedupe.{
  Headers, canonicalize_semantic_headers, accept, authorization, content_type, cookie,
}
use consensus_node.Runtime.Dedupe.SemanticHeaders.{
  last_value, write, normalized, hashed, canonicalize_semantic_headers_keeps,
}
use consensus_node.Runtime.Ssrf.{
  LookupAddress, found, join_dots, normalize_to_ipv4, is_private_ipv4, is_private_ipv6_bare,
  resolve_and_check_target, mapped, read_ipv4, numerals, strip_brackets, is_unique_local,
  is_numeral, is_dotted,
}
use consensus_node.Runtime.Ssrf.Spellings.{one, spelled, normalize_to_ipv4-spelled}
use consensus_node.Runtime.Ssrf.Safety.{SafeCache, SafeResult, resolve_and_check_target_safe}
use consensus_node.Tests.Requests.{urls}

abbrev headers : Headers
headers =
    (codes "Accept", codes " text/html ")
    ∷ (codes "X-Trace", codes "1")
    ∷ (codes "ACCEPT", codes "a  b")
    ∷ []

canonicalize_semantic_headers_keeps_example :
    canonicalize_semantic_headers (λ b. b) headers
    ≡ write accept (normalized (λ b. b) (last_value accept headers))
      ++ (write authorization (hashed (λ b. b) (last_value authorization headers))
          ++ (write content_type (normalized (λ b. b) (last_value content_type headers))
              ++ write cookie (hashed (λ b. b) (last_value cookie headers))))
canonicalize_semantic_headers_keeps_example = canonicalize_semantic_headers_keeps (λ b. b) headers

normalize_to_ipv4-spelled_example :
    normalize_to_ipv4 (spelled 127 0 0 1 one) ≡ some (join_dots 127 0 0 1)
normalize_to_ipv4-spelled_example =
    normalize_to_ipv4-spelled 127 0 0 1 (omega arith) (omega arith) (omega arith) (omega arith) one

abbrev records : List LookupAddress
records =
    record { address = codes "93.184.216.34"; family = 4 }
    ∷ record { address = codes "10.0.0.1"; family = 4 }
    ∷ []

resolve_and_check_target_safe_example :
    SafeResult (resolve_and_check_target urls (codes "api.test") 0 0 (found records) []).0
    × SafeCache (resolve_and_check_target urls (codes "api.test") 0 0 (found records) []).1
resolve_and_check_target_safe_example =
    resolve_and_check_target_safe urls (codes "api.test") 0 0 (found records) [] tt

-- `::ffff:7f00:1` is the loopback address, and `::` is not taken for a private one.
mapped_loopback : is_private_ipv6_bare (codes "::ffff:7f00:1") ≡ true
unfolding is_private_ipv6_bare text_beq starts_with is_unique_local normalize_to_ipv4 read_ipv4
    mapped split to_lower_case strip_brackets numerals is_numeral is_private_ipv4 is_dotted
    parse_int decimal every number_of
mapped_loopback = refl

unspecified : is_private_ipv6_bare (codes "::") ≡ false
unfolding is_private_ipv6_bare text_beq starts_with is_unique_local normalize_to_ipv4 read_ipv4
    mapped split to_lower_case strip_brackets numerals is_numeral
unspecified = refl
