-- ===== src/Base/Json.antt =====
-- JSON values, and `JSON.parse` and `JSON.stringify` as a codec of the runtime: what the program
-- relies on is that a value which was written out is read back, and that an empty text is no value. Numbers are the integers.
use Prim.Native.Nat.{ℕ, ◌≤◌, ◌^◌, ◌-◌}
use mathlib.Core.Path.{◌≡◌}
use mathlib.Core.Bool.{Bool}
use mathlib.Core.Option.{Option, none, some}
use mathlib.Core.List.{List, []}
use consensus_node.Base.Tests.{◌==◌, if◌then◌else◌}
use consensus_node.Base.Texts.{Text, text_eq}
use consensus_node.Base.Int.{ℤ, pos_part, neg_part}
use consensus_node.Base.Results.{Result, ok, err}

mutual
  pub data Json : Type 0 where
    null : Json
    bool : Bool → Json
    num : ℤ → Json
    str : Text → Json
    arr : Items → Json
    obj : Fields → Json

  pub data Items : Type 0 where
    nil : Items
    cons : Json → Items → Items

  pub data Fields : Type 0 where
    end : Fields
    field : Text → Json → Fields → Fields

-- The value of a key, where `undefined` is `none`.
unfoldable pub lookup : Text → Fields → Option Json
lookup k end = none
lookup k (field j v fs) = if j == k then some v else lookup k fs

-- `value.key`: it throws on null, and is undefined on what is no object.
abbrev pub property {ℓ} : {E : Type ℓ} → E → Text → Json → Result E (Option Json)
property e k null = err e
property e k (obj fs) = ok (lookup k fs)
property e k _ = ok none

-- `typeof value === "string"`, with the string
abbrev pub as_text : Option Json → Option Text
as_text (some (str s)) = some s
as_text _ = none

abbrev pub as_number : Option Json → Option ℤ
as_number (some (num n)) = some n
as_number _ = none

-- A value that the two functions carry over unchanged: its numbers are safe integers, and no object
-- has a key twice.
abbrev pub IsSafe : ℤ → Type 0
IsSafe n = (pos_part n ≤ 2 ^ 53 - 1) × (neg_part n ≤ 2 ^ 53 - 1)

abbrev mutual
  pub IsPlain : Json → Type 0
  IsPlain null = Unit
  IsPlain (bool b) = Unit
  IsPlain (num n) = IsSafe n
  IsPlain (str s) = Unit
  IsPlain (arr xs) = ArePlain xs
  IsPlain (obj fs) = FieldsPlain fs

  pub ArePlain : Items → Type 0
  ArePlain nil = Unit
  ArePlain (cons x xs) = IsPlain x × ArePlain xs

  pub FieldsPlain : Fields → Type 0
  FieldsPlain end = Unit
  FieldsPlain (field k v fs) = (lookup k fs ≡ none) × IsPlain v × FieldsPlain fs

-- `Buffer.from(JSON.stringify(value), "utf8")` and `JSON.parse(buffer.toString("utf8"))`.
pub record JsonCodec : Type 0 where
  pub stringify : Json → List ℕ
  pub parse : List ℕ → Option Json
  pub parse-stringify : (v : Json) → IsPlain v → parse (stringify v) ≡ some v
  pub parse_empty : parse [] ≡ none
