-- ===== src/Tests/StackJson.antt =====
-- JSON values as programs of a stack machine: a concrete codec.
use mathlib.Core.List.{append_assoc, append-nil}
use consensus_node.Base.{
  ℕ, ◌≡◌, refl, ap, sym, ◌∙◌, true, false, List, [], ◌∷◌, ◌++◌, Option, none, some, Text, ◌==◌,
  nat_eq, if◌then◌else◌,
}
use consensus_node.Base.Int.{pos, negsuc}
use consensus_node.Base.Json.{
  Json, null, bool, num, str, arr, obj, Items, nil, cons, Fields, end, field, JsonCodec,
}

pub data Cell : Type 0 where
  json : Json → Cell
  items : Items → Cell
  fields : Fields → Cell
  letters : Text → Cell

-- The operations on the top of the stack; what does not fit is left.
abbrev take_letter : ℕ → List Cell → List Cell
take_letter n (letters s ∷ st) = letters (n ∷ s) ∷ st
take_letter n st = st

abbrev close_text : List Cell → List Cell
close_text (letters s ∷ st) = json (str s) ∷ st
close_text st = st

abbrev take_item : List Cell → List Cell
take_item (json x ∷ items xs ∷ st) = items (cons x xs) ∷ st
take_item st = st

abbrev close_items : List Cell → List Cell
close_items (items xs ∷ st) = json (arr xs) ∷ st
close_items st = st

abbrev take_field : List Cell → List Cell
take_field (letters k ∷ json v ∷ fields fs ∷ st) = fields (field k v fs) ∷ st
take_field st = st

abbrev close_fields : List Cell → List Cell
close_fields (fields fs ∷ st) = json (obj fs) ∷ st
close_fields st = st

-- One instruction: an operation and a number.
unfoldable pub step : ℕ → ℕ → List Cell → List Cell
step op n st =
    if op == 0
    then json null ∷ st
    else if op == 1
    then json (bool (n == 1)) ∷ st
    else if op == 2
    then json (num (pos n)) ∷ st
    else if op == 3
    then json (num (negsuc n)) ∷ st
    else if op == 4
    then letters [] ∷ st
    else if op == 5
    then take_letter n st
    else if op == 6
    then close_text st
    else if op == 7
    then items nil ∷ st
    else if op == 8
    then take_item st
    else if op == 9
    then close_items st
    else if op == 10
    then fields end ∷ st
    else if op == 11
    then take_field st
    else close_fields st

unfoldable pub run : List ℕ → List Cell → List Cell
unfolding step
run [] st = st
run (op ∷ []) st = st
run (op ∷ n ∷ code) st = run code (step op n st)

unfoldable pub write_text : Text → List ℕ
write_text [] = 4 ∷ 0 ∷ []
write_text (c ∷ s) = write_text s ++ (5 ∷ c ∷ [])

unfoldable mutual
  unfolding write_text

  pub write : Json → List ℕ
  write null = 0 ∷ 0 ∷ []
  write (bool true) = 1 ∷ 1 ∷ []
  write (bool false) = 1 ∷ 0 ∷ []
  write (num (pos n)) = 2 ∷ n ∷ []
  write (num (negsuc n)) = 3 ∷ n ∷ []
  write (str s) = write_text s ++ (6 ∷ 0 ∷ [])
  write (arr xs) = write_items xs ++ (9 ∷ 0 ∷ [])
  write (obj fs) = write_fields fs ++ (12 ∷ 0 ∷ [])

  pub write_items : Items → List ℕ
  write_items nil = 7 ∷ 0 ∷ []
  write_items (cons x xs) = write_items xs ++ (write x ++ (8 ∷ 0 ∷ []))

  pub write_fields : Fields → List ℕ
  write_fields end = 10 ∷ 0 ∷ []
  write_fields (field k v fs) = write_fields fs ++ (write v ++ (write_text k ++ (11 ∷ 0 ∷ [])))

run-write_text :
    (s : Text) (rest : List ℕ) (st : List Cell)
    → run (write_text s ++ rest) st ≡ run rest (letters s ∷ st)
unfolding run write_text
run-write_text [] rest st = refl
run-write_text (c ∷ s) rest st =
    ap (λ code. run code st) (append_assoc (write_text s) (5 ∷ c ∷ []) rest)
    ∙ run-write_text s (5 ∷ c ∷ rest) st

mutual
  unfolding run write

  run-write :
      (v : Json) (rest : List ℕ) (st : List Cell)
      → run (write v ++ rest) st ≡ run rest (json v ∷ st)
  run-write null rest st = refl
  run-write (bool true) rest st = refl
  run-write (bool false) rest st = refl
  run-write (num (pos n)) rest st = refl
  run-write (num (negsuc n)) rest st = refl
  run-write (str s) rest st =
      ap (λ code. run code st) (append_assoc (write_text s) (6 ∷ 0 ∷ []) rest)
      ∙ run-write_text s (6 ∷ 0 ∷ rest) st
  run-write (arr xs) rest st =
      ap (λ code. run code st) (append_assoc (write_items xs) (9 ∷ 0 ∷ []) rest)
      ∙ run-write_items xs (9 ∷ 0 ∷ rest) st
  run-write (obj fs) rest st =
      ap (λ code. run code st) (append_assoc (write_fields fs) (12 ∷ 0 ∷ []) rest)
      ∙ run-write_fields fs (12 ∷ 0 ∷ rest) st

  run-write_items :
      (xs : Items) (rest : List ℕ) (st : List Cell)
      → run (write_items xs ++ rest) st ≡ run rest (items xs ∷ st)
  run-write_items nil rest st = refl
  run-write_items (cons x xs) rest st =
      ap (λ code. run code st)
        (append_assoc (write_items xs) (write x ++ (8 ∷ 0 ∷ [])) rest
          ∙ ap (λ code. write_items xs ++ code) (append_assoc (write x) (8 ∷ 0 ∷ []) rest))
      ∙ run-write_items xs (write x ++ (8 ∷ 0 ∷ rest)) st
      ∙ run-write x (8 ∷ 0 ∷ rest) (items xs ∷ st)

  run-write_fields :
      (fs : Fields) (rest : List ℕ) (st : List Cell)
      → run (write_fields fs ++ rest) st ≡ run rest (fields fs ∷ st)
  run-write_fields end rest st = refl
  run-write_fields (field k v fs) rest st =
      ap (λ code. run code st)
        (append_assoc (write_fields fs) (write v ++ (write_text k ++ (11 ∷ 0 ∷ []))) rest
          ∙ ap (λ code. write_fields fs ++ code)
              (append_assoc (write v) (write_text k ++ (11 ∷ 0 ∷ [])) rest
                ∙ ap (λ code. write v ++ code) (append_assoc (write_text k) (11 ∷ 0 ∷ []) rest)))
      ∙ run-write_fields fs (write v ++ (write_text k ++ (11 ∷ 0 ∷ rest))) st
      ∙ run-write v (write_text k ++ (11 ∷ 0 ∷ rest)) (fields fs ∷ st)
      ∙ run-write_text k (11 ∷ 0 ∷ rest) (json v ∷ fields fs ∷ st)

unfoldable pub result : List Cell → Option Json
result (json v ∷ []) = some v
result _ = none

unfoldable pub read : List ℕ → Option Json
read code = result (run code [])

pub read-write : (v : Json) → read (write v) ≡ some v
unfolding read result run
read-write v =
    ap (λ code. result (run code [])) (sym (append-nil (write v))) ∙ ap result (run-write v [] [])

pub read_empty : read [] ≡ none
unfolding read result run
read_empty = refl

abbrev pub json_codec : JsonCodec
json_codec = record {
  stringify = write;
  parse = read;
  parse-stringify = λ v p. read-write v;
  parse_empty = read_empty;
}
