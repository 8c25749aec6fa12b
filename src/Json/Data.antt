-- ===== src/Json/Data.antt =====
-- The values, lookup by key, Python's `==` on them, and `json.dumps` with compact separators.
use cloud_portfolio.Prelude.{
  ℕ, zero, suc, ◌+◌, ◌-◌, ◌*◌, ◌/◌, ◌%◌, ◌^◌, Bool, true, false, not, ◌&&◌, Option, none, some, [],
  ◌∷◌, ◌++◌, ltb, leb, ◌==◌, if◌then◌else◌, ℤ, pos, negsuc, Text, codes, text_eq, decimal,
}

-- A float is given by its 64 bits and the text of its `repr`. Keys of a dict are texts.
mutual
  pub data Value : Type 0 where
    null : Value
    bool : Bool → Value
    int : ℤ → Value
    float : ℕ → Text → Value
    str : Text → Value
    arr : Items → Value
    obj : Fields → Value

  pub data Items : Type 0 where
    nil : Items
    cons : Value → Items → Items

  pub data Fields : Type 0 where
    end : Fields
    field : Text → Value → Fields → Fields

-- `d.get(k)`; `none` also stands for `k not in d`.
unfoldable pub get : Text → Fields → Option Value
unfolding text_eq
get k end = none
get k (field j v d) = if text_eq k j then some v else get k d

-- `d[k] = v`
unfoldable pub put : Text → Value → Fields → Fields
unfolding text_eq
put k v end = field k v end
put k v (field j w d) = if text_eq k j then field j v d else field j w (put k v d)

-- `d.pop(k, None)`
unfoldable pub remove : Text → Fields → Fields
unfolding text_eq
remove k end = end
remove k (field j w d) = let rest = remove k d in if text_eq k j then rest else field j w rest

abbrev pub contains : Text → Fields → Bool
contains k d = elim (get k d) [ none ↦ false | some _ ↦ true ]

-- The exponent bits of an IEEE double are not all ones.
unfoldable pub is_finite : ℕ → Bool
is_finite bits = not (bits / 2 ^ 52 % 2 ^ 11 == 2047)

-- The first of the 64 bits.
is_negative_float : ℕ → Bool
is_negative_float bits = leb (2 ^ 63) bits

-- A finite double is `significand * 2 ^ (exponent - 1075)`, with its sign.
significand : ℕ → ℕ
significand bits = if bits / 2 ^ 52 % 2 ^ 11 == 0 then bits % 2 ^ 52 else 2 ^ 52 + bits % 2 ^ 52

exponent : ℕ → ℕ
exponent bits = let e = bits / 2 ^ 52 % 2 ^ 11 in if e == 0 then 1 else e

-- A natural number and the magnitude of a finite double, compared exactly.
magnitude_eq : ℕ → ℕ → Bool
unfolding significand exponent
magnitude_eq n bits =
    if leb 1075 (exponent bits)
    then n == significand bits * 2 ^ (exponent bits - 1075)
    else n * 2 ^ (1075 - exponent bits) == significand bits

int_float_eq : ℤ → ℕ → Bool
unfolding magnitude_eq is_negative_float is_finite
int_float_eq (pos zero) bits = bits % 2 ^ 63 == 0
int_float_eq (pos (suc n)) bits =
    is_finite bits && not (is_negative_float bits) && magnitude_eq (suc n) bits
int_float_eq (negsuc n) bits = is_finite bits && is_negative_float bits && magnitude_eq (suc n) bits

-- NaN differs from all, and the two zeros are equal.
float_eq : ℕ → ℕ → Bool
float_eq a b =
    if a % 2 ^ 63 == 0 then b % 2 ^ 63 == 0 else a == b && leb (a % 2 ^ 63) (2047 * 2 ^ 52)

unfoldable pub int_eq : ℤ → ℤ → Bool
int_eq (pos m) (pos n) = m == n
int_eq (negsuc m) (negsuc n) = m == n
int_eq _ _ = false

abbrev bool_int : Bool → ℤ
bool_int true = pos 1
bool_int false = pos 0

field_count : Fields → ℕ
field_count end = 0
field_count (field k v d) = suc (field_count d)

-- Python's `==`: booleans are integers, and the order of a dict's keys does not count.
unfoldable mutual
  unfolding int_float_eq float_eq int_eq field_count text_eq get

  pub value_eq : Value → Value → Bool
  value_eq null null = true
  value_eq (bool a) (bool b) = int_eq (bool_int a) (bool_int b)
  value_eq (bool a) (int b) = int_eq (bool_int a) b
  value_eq (bool a) (float b r) = int_float_eq (bool_int a) b
  value_eq (int a) (bool b) = int_eq a (bool_int b)
  value_eq (int a) (int b) = int_eq a b
  value_eq (int a) (float b r) = int_float_eq a b
  value_eq (float a r) (bool b) = int_float_eq (bool_int b) a
  value_eq (float a r) (int b) = int_float_eq b a
  value_eq (float a r) (float b r') = float_eq a b
  value_eq (str s) (str t) = text_eq s t
  value_eq (arr xs) (arr ys) = items_eq xs ys
  value_eq (obj d) (obj e) = field_count d == field_count e && fields_in d e
  value_eq _ _ = false

  pub items_eq : Items → Items → Bool
  items_eq nil nil = true
  items_eq (cons x xs) (cons y ys) = value_eq x y && items_eq xs ys
  items_eq _ _ = false

  -- Every key of the first dict has an equal value in the second.
  pub fields_in : Fields → Fields → Bool
  fields_in end e = true
  fields_in (field k v d) e = elim (get k e) [
    | none ↦ false
    | some w ↦ value_eq v w && fields_in d e
  ]

-- `type(a) is type(b)`
unfoldable pub same_type : Value → Value → Bool
same_type null null = true
same_type (bool a) (bool b) = true
same_type (int a) (int b) = true
same_type (float a r) (float b r') = true
same_type (str s) (str t) = true
same_type (arr xs) (arr ys) = true
same_type (obj d) (obj e) = true
same_type _ _ = false

-- A key or string between quotes, with the escapes of `ensure_ascii=False`.
abbrev hex_digit : ℕ → ℕ
hex_digit n = if ltb n 10 then 48 + n else 87 + n

unfoldable pub escape : Text → Text
escape [] = codes "\""
escape (c ∷ s) =
    (if c == 34
      then codes "\\\""
      else if c == 92
      then codes "\\\\"
      else if c == 10
      then codes "\\n"
      else if c == 13
      then codes "\\r"
      else if c == 9
      then codes "\\t"
      else if c == 8
      then codes "\\b"
      else if c == 12
      then codes "\\f"
      else if ltb c 32
      then codes "\\u00" ++ (hex_digit (c / 16) ∷ hex_digit (c % 16) ∷ [])
      else c ∷ [])
    ++ escape s

quoted : Text → Text
unfolding escape
quoted s = codes "\"" ++ escape s

int_text : ℤ → Text
unfolding decimal
int_text (pos n) = decimal n
int_text (negsuc n) = codes "-" ++ decimal (suc n)

-- `json.dumps(v, ensure_ascii=False, separators=(",", ":"))`
unfoldable mutual
  unfolding quoted int_text

  pub dumps : Value → Text
  dumps null = codes "null"
  dumps (bool true) = codes "true"
  dumps (bool false) = codes "false"
  dumps (int n) = int_text n
  dumps (float bits repr) = repr
  dumps (str s) = quoted s
  dumps (arr nil) = codes "[]"
  dumps (arr (cons x xs)) = codes "[" ++ (dumps x ++ dumps_items xs)
  dumps (obj end) = codes "{}"
  dumps (obj (field k v d)) = codes "{" ++ (quoted k ++ (codes ":" ++ (dumps v ++ dumps_fields d)))

  pub dumps_items : Items → Text
  dumps_items nil = codes "]"
  dumps_items (cons x xs) = codes "," ++ (dumps x ++ dumps_items xs)

  pub dumps_fields : Fields → Text
  dumps_fields end = codes "}"
  dumps_fields (field k v d) = codes "," ++ (quoted k ++ (codes ":" ++ (dumps v ++ dumps_fields d)))

-- `len(s.encode("utf-8"))`
unfoldable pub utf8_size : Text → ℕ
utf8_size [] = 0
utf8_size (c ∷ s) =
    (if ltb c 128 then 1 else if ltb c 2048 then 2 else if ltb c 65536 then 3 else 4) + utf8_size s
