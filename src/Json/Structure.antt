-- ===== src/Json/Structure.antt =====
-- portfolio/event_envelope.py: the check of a decoded value, and the names of generic events.
-- What `json.loads` returns is a tree, so no container is met inside itself and the set of the
-- active containers never reports; an `exiting` entry is kept, and does nothing.
pub mod Sound
pub mod Names
use cloud_portfolio.Prelude.{
  ℕ, zero, suc, ◌+◌, Bool, true, false, ◌&&◌, ◌||◌, not, List, [], ◌∷◌, any, ltb, leb, ◌==◌,
  if◌then◌else◌, Text, codes, decimal, has_nul, ◌++◌,
}
use cloud_portfolio.Errors.{Error, Result, ok, err, value_error, ◌>>=◌, ◌>>◌, raise_if, other_error}
use cloud_portfolio.Json.Data.{
  Value, null, bool, int, float, str, arr, obj, Items, nil, cons, Fields, end, field, is_finite,
}

abbrev pub max_json_nesting_depth : ℕ
max_json_nesting_depth = 64

abbrev pub max_json_wire_nesting_depth : ℕ
max_json_wire_nesting_depth = max_json_nesting_depth + 1

is_alphanumeric : ℕ → Bool
is_alphanumeric c =
    (leb b'A' c && leb c b'Z') || (leb b'a' c && leb c b'z') || (leb b'0' c && leb c b'9')

is_name_character : ℕ → Bool
unfolding is_alphanumeric
is_name_character c = is_alphanumeric c || c == b'.' || c == b'_' || c == b':' || c == b'-'

all_characters : (ℕ → Bool) → Text → Bool
all_characters p [] = true
all_characters p (c ∷ s) = p c && all_characters p s

-- `^[A-Za-z0-9][A-Za-z0-9._:-]*$`, matched in full.
unfoldable pub is_generic_event_type : Text → Bool
unfolding is_name_character all_characters
is_generic_event_type [] = false
is_generic_event_type (c ∷ s) = is_alphanumeric c && all_characters is_name_character s

unfoldable pub contains_utf16_surrogate : Text → Bool
contains_utf16_surrogate s = any (λ c. leb 0xd800 c && leb c 0xdfff) s

-- An entry of the stack: a value below `parent_depth` containers, or the end of a container.
pub data Entry : Type 0 where
  visit : Value → ℕ → Entry
  leave : Entry

check_text : Text → Result (Unit {0})
unfolding has_nul contains_utf16_surrogate
check_text s = do
  raise_if (has_nul s) (codes "JSON strings and object keys must not contain NUL characters")
  raise_if (contains_utf16_surrogate s)
      (codes "JSON strings and object keys must contain valid Unicode scalars")

push_items : Items → ℕ → List Entry → List Entry
push_items nil depth stack = stack
push_items (cons item items) depth stack = push_items items depth (visit item depth ∷ stack)

push_fields : Fields → ℕ → List Entry → Result (List Entry)
unfolding check_text
push_fields end depth stack = ok stack
push_fields (field key item fields) depth stack =
    check_text key >> push_fields fields depth (visit item depth ∷ stack)

nesting_message : ℕ → Text
unfolding decimal
nesting_message max_depth =
    codes "JSON nesting must not exceed " ++ (decimal max_depth ++ codes " container levels")

-- One round of the loop: the entry on top, and the stack below it.
visit_entry : ℕ → Entry → List Entry → Result (List Entry)
unfolding check_text push_items push_fields is_finite nesting_message
visit_entry max_depth leave stack = ok stack
visit_entry max_depth (visit (str s) depth) stack = check_text s >> ok stack
visit_entry max_depth (visit (float bits repr) depth) stack =
    raise_if (not (is_finite bits)) (codes "JSON numbers must be finite") >> ok stack
visit_entry max_depth (visit (arr items) depth) stack =
    raise_if (ltb max_depth (depth + 1)) (nesting_message max_depth)
    >> ok (push_items items (depth + 1) (leave ∷ stack))
visit_entry max_depth (visit (obj fields) depth) stack =
    raise_if (ltb max_depth (depth + 1)) (nesting_message max_depth)
    >> push_fields fields (depth + 1) (leave ∷ stack)
visit_entry max_depth (visit _ depth) stack = ok stack

-- `while stack`, on fuel.
walk : ℕ → ℕ → List Entry → Result (Unit {0})
unfolding visit_entry
walk max_depth fuel [] = ok tt
walk max_depth zero (entry ∷ stack) = err (other_error (codes "out of fuel"))
walk max_depth (suc fuel) (entry ∷ stack) =
    visit_entry max_depth entry stack >>= λ stack'. walk max_depth fuel stack'

-- The rounds that a value takes: one for each part, and one more to leave each container.
mutual
  weight : Value → ℕ
  weight (arr items) = suc (suc (weight_items items))
  weight (obj fields) = suc (suc (weight_fields fields))
  weight _ = 1

  weight_items : Items → ℕ
  weight_items nil = 0
  weight_items (cons item items) = weight item + weight_items items

  weight_fields : Fields → ℕ
  weight_fields end = 0
  weight_fields (field key item fields) = weight item + weight_fields fields

unfoldable pub validate_json_structure : ℕ → Value → Result (Unit {0})
unfolding walk weight
validate_json_structure max_depth value = walk max_depth (weight value) (visit value 0 ∷ [])
