-- ===== src/Tests/Instances.antt =====
-- Concrete functions in place of the libraries' operations, each with the laws that the code relies
-- on: a tag of zeros, keys that are numbers, and values written as programs of a stack machine.
use consensus_node.Base.{
  ℕ, Text, zero, suc, ◌+◌, ◌-◌, ◌*◌, ◌≡◌, ◌≢◌, refl, ap, ap₂, ◌∙◌, false, List, [], ◌∷◌, ◌++◌, map,
  Option, none, some, length, length-append, nat_eq, ◌==◌, ==_refl, ==_sound, text_eq, take, drop,
  take_prefix, drop_prefix, take-append-drop, if◌then◌else◌, includes, arith,
}
use consensus_node.Crypto.Primitives.{Aead, Kdf, Signatures, Base64Url, Base64, Pem}

unfoldable pub fill : ℕ → ℕ → List ℕ
fill zero x = []
fill (suc n) x = x ∷ fill n x

pub length-fill : (n x : ℕ) → length (fill n x) ≡ n
unfolding fill
length-fill zero x = refl
length-fill (suc n) x = omega (arith, length-fill n x)

unfoldable pub zeros16 : List ℕ
unfolding fill
zeros16 = fill 16 0

unfoldable pub open_zeros : List ℕ → Option (List ℕ)
open_zeros c = if drop (length c - 16) c == zeros16 then some (take (length c - 16) c) else none

pub size16 : length zeros16 ≡ 16
unfolding zeros16
size16 = refl

before : (p : List ℕ) → length (p ++ zeros16) - 16 ≡ length p
before p = omega (arith, length-append p zeros16, size16)

pub open_sealed : (p : List ℕ) → open_zeros (p ++ zeros16) ≡ some p
unfolding open_zeros
open_sealed p =
    rw
      (
        before p,
        drop_prefix (length p) p zeros16 refl,
        take_prefix (length p) p zeros16 refl,
        ==_refl zeros16,
      )
      refl

pub open_only : (c p : List ℕ) → open_zeros c ≡ some p → c ≡ p ++ zeros16
unfolding open_zeros
open_only c p h =
    ground (arith, ==_sound (drop (length c - 16) c) zeros16, take-append-drop (length c - 16) c)

abbrev pub aead : Aead
aead = record {
  encrypt = λ k n a p. p ++ zeros16;
  decrypt = λ k n a c. open_zeros c;
  length-encrypt = λ k n a p. length-append p zeros16 ∙ ap (λ m. length p + m) size16;
  decrypt-encrypt = λ k n a p. open_sealed p;
  decrypt_only = λ k n a c p h. open_only c p h;
}

unfoldable pub derive : ℕ → List ℕ → Option (List ℕ)
derive a (b ∷ []) = some (a * b ∷ [])
derive a _ = none

pub derive_agree : (a b : ℕ) → derive a (b ∷ []) ≡ derive b (a ∷ [])
unfolding derive
derive_agree a b = ap (λ n. some (n ∷ [])) (omega arith)

pub cons_not_empty : (a : ℕ) (b : List ℕ) → (a ∷ b) ≢ []
cons_not_empty a b e = cc

abbrev pub kdf : Kdf
kdf = record {
  public_key = λ a. a ∷ [];
  derive = derive;
  sha256 = λ b. fill 32 (length b);
  hkdf = λ secret salt info n. fill n 7;
  public_key_not_empty = λ a. cons_not_empty a [];
  agree = derive_agree;
  length-sha256 = λ b. length-fill 32 (length b);
  length-hkdf = λ secret salt info n. length-fill n 7;
}

abbrev pub signatures : Signatures
signatures = record {
  public_of = λ secret. secret;
  sign = λ secret message. fill 64 secret;
  verify = λ public message sig. sig == fill 64 public;
  length-sign = λ secret message. length-fill 64 secret;
  verify-sign = λ secret message. ==_refl (fill 64 secret);
}

pub shift_back : (b : List ℕ) → map (λ n. n - 47) (map (λ n. n + 47) b) ≡ b
shift_back [] = refl
shift_back (x ∷ b) = ap₂ ◌∷◌ (omega arith) (shift_back b)

pub shift_no_dot : (b : List ℕ) → includes 0x2e (map (λ n. n + 47) b) ≡ false
shift_no_dot [] = refl
shift_no_dot (x ∷ b) = ground (arith, shift_no_dot b)

abbrev pub base64url : Base64Url
base64url = record {
  encode = map (λ n. n + 47);
  decode = map (λ n. n - 47);
  decode-encode = shift_back;
  encode_no_dot = shift_no_dot;
}

abbrev pub base64 : Base64
base64 = record {
  encode = map (λ n. n + 47);
  decode = map (λ n. n - 47);
  decode-encode = shift_back;
  decode_empty = refl;
}

unfoldable pub read_pem : Text → Option ℕ
read_pem (key ∷ []) = some key
read_pem _ = none

pub read-pem : (key : ℕ) → read_pem (key ∷ []) ≡ some key
unfolding read_pem
read-pem key = refl

abbrev pub pem : Pem
pem = record {
  write = λ key. key ∷ [];
  read = read_pem;
  read-write = read-pem;
  write_not_empty = λ key. cons_not_empty key [];
}
