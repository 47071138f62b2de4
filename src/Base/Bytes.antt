-- ===== src/Base/Bytes.antt =====
-- Buffers as lists of bytes, and the unsigned big-endian reads and writes of a `Buffer`.
use Prim.Native.Nat.{ℕ, zero, suc, ◌+◌, ◌*◌, ◌/◌, ◌%◌, ◌^◌, ◌≤◌, ◌<◌, ◌-◌}
use mathlib.Core.Path.{◌≡◌, refl, ap, ◌∙◌}
use mathlib.Core.List.{List, [], ◌∷◌, reverse, reverse-cons, reverse-reverse}
use native.Mathlib.Omega.{arith}
use native.Mathlib.Nat.{pow-suc}
use consensus_node.Base.Slices.{subarray, length-subarray, All-subarray}
use consensus_node.Base.Lists.{length, length-append, All, All-append}

abbrev pub IsByte : ℕ → Type 0
IsByte b = b < 256

abbrev pub AreBytes : List ℕ → Type 0
AreBytes = All IsByte

-- The lowest byte first, `w` bytes.
unfoldable pub little : ℕ → ℕ → List ℕ
little zero n = []
little (suc w) n = (n % 256) ∷ little w (n / 256)

unfoldable pub little_value : List ℕ → ℕ
little_value [] = 0
little_value (b ∷ bs) = b + 256 * little_value bs

pub length-little : (w n : ℕ) → length (little w n) ≡ w
unfolding little
length-little zero n = refl
length-little (suc w) n = ap suc (length-little w (n / 256))

cons_eq : {x y : ℕ} {xs ys : List ℕ} → x ≡ y → xs ≡ ys → x ∷ xs ≡ y ∷ ys
cons_eq p q = cc

tail_value : (x v : ℕ) → x < 256 → (x + 256 * v) / 256 ≡ v
tail_value x v h = omega arith

pub little_value-little : (w n : ℕ) → n < 256 ^ w → little_value (little w n) ≡ n
unfolding little little_value
little_value-little zero n h = omega arith
little_value-little (suc w) n h =
    omega (arith, little_value-little w (n / 256) (omega (arith, pow-suc 256 w)))

little-little_value :
    (w : ℕ) (bs : List ℕ) → length bs ≡ w → AreBytes bs → little w (little_value bs) ≡ bs
unfolding little little_value
little-little_value zero [] h b = refl
little-little_value zero (x ∷ bs) h b = absurd (omega arith)
little-little_value (suc w) [] h b = absurd (omega arith)
little-little_value (suc w) (x ∷ bs) h b =
    cons_eq (omega arith)
      (rw (tail_value x (little_value bs) b.0) (little-little_value w bs (omega arith) b.1))

little_value-lt : (bs : List ℕ) → AreBytes bs → little_value bs < 256 ^ length bs
unfolding little_value
little_value-lt [] h = omega arith
little_value-lt (x ∷ bs) h = omega (arith, little_value-lt bs h.1, pow-suc 256 (length bs))

-- `writeUIntBE(value, offset, w)`: the `w` bytes written.
unfoldable pub write_be : ℕ → ℕ → List ℕ
unfolding little
write_be w n = reverse (little w n)

-- `readUIntBE`
unfoldable pub read_be : List ℕ → ℕ
unfolding little_value
read_be bs = little_value (reverse bs)

length-reverse : (xs : List ℕ) → length (reverse xs) ≡ length xs
length-reverse [] = refl
length-reverse (x ∷ xs) =
    omega
      (arith, ap length (reverse-cons x xs), length-append (reverse xs) (x ∷ []), length-reverse xs)

reverse-AreBytes : (xs : List ℕ) → AreBytes xs → AreBytes (reverse xs)
reverse-AreBytes [] h = tt
reverse-AreBytes (x ∷ xs) h =
    rw (reverse-cons x xs)
      (All-append IsByte (reverse xs) (x ∷ []) (reverse-AreBytes xs h.1) (h.0, tt))

pub little-AreBytes : (w n : ℕ) → AreBytes (little w n)
unfolding little
little-AreBytes zero n = tt
little-AreBytes (suc w) n = (omega arith, little-AreBytes w (n / 256))

pub length-write_be : (w n : ℕ) → length (write_be w n) ≡ w
unfolding write_be
length-write_be w n = length-reverse (little w n) ∙ length-little w n

pub write_be-AreBytes : (w n : ℕ) → AreBytes (write_be w n)
unfolding write_be
write_be-AreBytes w n = reverse-AreBytes (little w n) (little-AreBytes w n)

pub read_be-write_be : (w n : ℕ) → n < 256 ^ w → read_be (write_be w n) ≡ n
unfolding read_be write_be
read_be-write_be w n h = ap little_value (reverse-reverse (little w n)) ∙ little_value-little w n h

pub write_be-read_be :
    (w : ℕ) (bs : List ℕ) → length bs ≡ w → AreBytes bs → write_be w (read_be bs) ≡ bs
unfolding read_be write_be
write_be-read_be w bs h b =
    ap reverse (little-little_value w (reverse bs) (length-reverse bs ∙ h) (reverse-AreBytes bs b))
    ∙ reverse-reverse bs

pub read_be-lt : (w : ℕ) (bs : List ℕ) → length bs ≡ w → AreBytes bs → read_be bs < 256 ^ w
unfolding read_be
read_be-lt w bs h b =
    rw (← (length-reverse bs ∙ h)) (little_value-lt (reverse bs) (reverse-AreBytes bs b))

be_example : write_be 4 0x0102_0a0b ≡ 1 ∷ 2 ∷ 10 ∷ 11 ∷ []
unfolding write_be
be_example = refl

pub read_be_one : (b : ℕ) → read_be (b ∷ []) ≡ b
unfolding read_be
read_be_one b = omega arith

pub read_be_one_inv : (bs : List ℕ) (b : ℕ) → length bs ≡ 1 → read_be bs ≡ b → bs ≡ b ∷ []
read_be_one_inv [] b h r = absurd (omega arith)
read_be_one_inv (x ∷ []) b h r = cons_eq (omega (arith, read_be_one x)) refl
read_be_one_inv (x ∷ y ∷ bs) b h r = absurd (omega arith)

-- A field that was read is written back as it stands in the buffer.
pub rewrite_field :
    (w a b : ℕ) (raw : List ℕ)
    → AreBytes raw
    → b ≤ length raw
    → b - a ≡ w
    → write_be w (read_be (subarray raw a b)) ≡ subarray raw a b
rewrite_field w a b raw h hb hw =
    write_be-read_be w (subarray raw a b) (length-subarray raw a b hb ∙ hw)
      (All-subarray IsByte raw a b h)

pub read_field-lt :
    (w a b : ℕ) (raw : List ℕ)
    → AreBytes raw
    → b ≤ length raw
    → b - a ≡ w
    → read_be (subarray raw a b) < 256 ^ w
read_field-lt w a b raw h hb hw =
    read_be-lt w (subarray raw a b) (length-subarray raw a b hb ∙ hw)
      (All-subarray IsByte raw a b h)
