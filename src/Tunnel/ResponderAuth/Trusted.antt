-- ===== src/Tunnel/ResponderAuth/Trusted.antt =====
-- What a client of src/tunnel/responder-auth.ts knows of a proof that it accepts.
use consensus_node.Base.{
  Text, codes, text_eq, text_beq, text_eq_iff, ==_sound, true, false, Option, none, some, ok, ◌≡◌,
  ◌≢◌, refl, ap, arith, ◌⊎◌, inl, inr, ◌∙◌, subst, or_else, >>=-eq-ok,
}
use consensus_node.Base.Int.{ℤ}
use consensus_node.Base.Json.{
  Json, null, bool, num, str, arr, obj, Fields, JsonCodec, as_text, as_number, lookup,
}
use consensus_node.Crypto.Primitives.{Signatures, Base64}
use consensus_node.Tunnel.Checks.{
  text_is, same_text, signature_key, signing_payload, remove_field, lookup-remove_field,
  lookup-remove_field_same,
}
use mathlib.Core.Option
use consensus_node.Tunnel.Canonical.{proto_key, sort_value, sort_fields, lookup-sort_fields}
use consensus_node.Tunnel.ResponderAuth.{
  VerifyProofOptions, default_clock_tolerance_sec, default_max_age_sec, assert_challenge,
  assert_proof, check_proof, verify_proof,
}
use consensus_node.Tunnel.ResponderAuth.Proven.{IsFresh}

pub text_is-eq : (v : Option Json) (t : Text) → text_is v t ≡ true → v ≡ some (str t)
text_is-eq none t h = cc
text_is-eq (some null) t h = cc
text_is-eq (some (bool b)) t h = cc
text_is-eq (some (num n)) t h = cc
text_is-eq (some (str s)) t h = ap (λ u. some (str u)) (==_sound s t h)
text_is-eq (some (arr xs)) t h = cc
text_is-eq (some (obj fs)) t h = cc

pub same_text-eq : (v w : Option Json) → same_text v w ≡ true → v ≡ w
same_text-eq none none h = refl
same_text-eq none (some w) h = cc
same_text-eq (some (str s)) (some (str t)) h = ap (λ u. some (str u)) (==_sound s t h)
same_text-eq (some null) w h = cc
same_text-eq (some (bool b)) w h = cc
same_text-eq (some (num n)) w h = cc
same_text-eq (some (arr xs)) w h = cc
same_text-eq (some (obj fs)) w h = cc
same_text-eq (some (str s)) none h = cc
same_text-eq (some (str s)) (some null) h = cc
same_text-eq (some (str s)) (some (bool b)) h = cc
same_text-eq (some (str s)) (some (num n)) h = cc
same_text-eq (some (str s)) (some (arr xs)) h = cc
same_text-eq (some (str s)) (some (obj fs)) h = cc

-- The object that is signed has every field of the proof in its canonical form, but for the signature;
-- a field __proto__ is not carried over.
pub record Covers (signed p : Fields) : Type 0 where
  pub same :
      (key : Text)
      → key ≢ signature_key
      → key ≢ proto_key
      → lookup key signed ≡ Option.map sort_value (lookup key p)
  pub unsigned : lookup signature_key signed ≡ none

false_not_true : false ≡ true → ⊥
false_not_true h = cc

signature_not_proto : signature_key ≢ proto_key
unfolding text_beq
signature_not_proto e = false_not_true ((text_eq_iff signature_key proto_key).1 e)

sort_fields-Covers : (p : Fields) → Covers (sort_fields (remove_field signature_key p)) p
sort_fields-Covers p = record {
  same = λ key other own.
      lookup-sort_fields key (remove_field signature_key p) own
      ∙ ap (Option.map sort_value) (lookup-remove_field key signature_key p other);
  unsigned =
      lookup-sort_fields signature_key (remove_field signature_key p) signature_not_proto
      ∙ ap (Option.map sort_value) (lookup-remove_field_same signature_key p);
}

-- A proof, with its fields, that answers a challenge under a key.
pub record IsTrusted (base64 : Base64) (signatures : Signatures) (json : JsonCodec) (clock : ℤ)
    (opts : VerifyProofOptions) (challenge p : Fields) : Type 0 where
  pub issued : ℤ
  pub signature : Text
  pub names_node : lookup (codes "node_id") p ≡ some (str opts.expected_node_id)
  pub asks_node : lookup (codes "node_id") challenge ≡ some (str opts.expected_node_id)
  pub echoes_nonce : lookup (codes "client_nonce") p ≡ lookup (codes "client_nonce") challenge
  pub echoes_binding :
      lookup (codes "channel_binding") p ≡ lookup (codes "channel_binding") challenge
  pub has_time : lookup (codes "timestamp") p ≡ some (num issued)
  pub is_fresh :
      IsFresh issued
        (or_else opts.now clock)
        (or_else opts.clock_tolerance_sec default_clock_tolerance_sec)
        (or_else opts.max_age_sec default_max_age_sec)
  pub has_signature : lookup signature_key p ≡ some (str signature)
  pub signed : Fields
  pub covers : Covers signed p
  pub is_signed :
      signatures.verify opts.expected_node_public_key
        (json.stringify (obj signed))
        (base64.decode signature)
      ≡ true

number-cases : (v : Option Json) → ((a : ℤ) × (v ≡ some (num a))) ⊎ (as_number v ≡ none)
number-cases none = inr refl
number-cases (some null) = inr refl
number-cases (some (bool b)) = inr refl
number-cases (some (num n)) = inl (n, refl)
number-cases (some (str s)) = inr refl
number-cases (some (arr xs)) = inr refl
number-cases (some (obj fs)) = inr refl

text-cases : (v : Option Json) → ((a : Text) × (v ≡ some (str a))) ⊎ (as_text v ≡ none)
text-cases none = inr refl
text-cases (some null) = inr refl
text-cases (some (bool b)) = inr refl
text-cases (some (num n)) = inr refl
text-cases (some (str s)) = inl (s, refl)
text-cases (some (arr xs)) = inr refl
text-cases (some (obj fs)) = inr refl

module _ (base64 : Base64) (signatures : Signatures) (json : JsonCodec) where
  check_proof-IsTrusted :
      (clock : ℤ) (opts : VerifyProofOptions) (challenge q p : Fields) (issued : ℤ) (sig : Text)
      → lookup (codes "timestamp") q ≡ some (num issued)
      → lookup signature_key q ≡ some (str sig)
      → check_proof base64 signatures json clock opts challenge q ≡ ok p
      → (q ≡ p) × IsTrusted base64 signatures json clock opts challenge q
  unfolding check_proof signing_payload sort_fields
  check_proof-IsTrusted clock opts challenge q p issued sig t s h = (
    ground arith,
    record {
      issued = issued;
      signature = sig;
      names_node = text_is-eq (lookup (codes "node_id") q) opts.expected_node_id (ground arith);
      asks_node =
          text_is-eq (lookup (codes "node_id") challenge) opts.expected_node_id (ground arith);
      echoes_nonce = same_text-eq _ _ (ground arith);
      echoes_binding = same_text-eq _ _ (ground arith);
      has_time = t;
      is_fresh = record { not_early = ground arith; not_old = ground arith };
      has_signature = s;
      signed = sort_fields (remove_field signature_key q);
      covers = sort_fields-Covers q;
      is_signed = ground arith;
    },
  )

  check_proof_read :
      (clock : ℤ) (opts : VerifyProofOptions) (challenge q p : Fields)
      → check_proof base64 signatures json clock opts challenge q ≡ ok p
      → ((n : ℤ) × (lookup (codes "timestamp") q ≡ some (num n)))
        × ((t : Text) × (lookup signature_key q ≡ some (str t)))
  unfolding check_proof
  check_proof_read clock opts challenge q p h = (
    elim (number-cases (lookup (codes "timestamp") q)) [
      | inl found ↦ found
      | inr missing ↦ absurd (ground arith)
    ],
    elim (text-cases (lookup signature_key q)) [
      | inl found ↦ found
      | inr missing ↦ absurd (ground arith)
    ],
  )

  -- A client accepts no proof but one that is signed under the key that it expects: the proof names the
  -- expected node, echoes the nonce and the channel binding of the client's own challenge, and is
  -- fresh. What is signed is an object with every field of the proof, in its canonical form, except
  -- the signature and a field __proto__.
  pub verify_proof-IsTrusted :
      (clock : ℤ) (opts : VerifyProofOptions) (p : Fields)
      → verify_proof base64 signatures json clock opts ≡ ok p
      → (challenge : Fields) × (assert_challenge base64 opts.challenge ≡ ok challenge)
        × (assert_proof base64 opts.proof ≡ ok p)
        × IsTrusted base64 signatures json clock opts challenge p
  unfolding verify_proof
  verify_proof-IsTrusted clock opts p h =
      let (challenge, asked, h1) = >>=-eq-ok (assert_challenge base64 opts.challenge) _ h in
      let (q, proven, h2) = >>=-eq-ok (assert_proof base64 opts.proof) _ h1 in
      let ((issued, t), (sig, s)) = check_proof_read clock opts challenge q p h2 in
      let (same, trusted) = check_proof-IsTrusted clock opts challenge q p issued sig t s h2 in
      (
        challenge,
        asked,
        proven ∙ ap ok same,
        subst (IsTrusted base64 signatures json clock opts challenge) same trusted,
      )
