-- ===== src/Worker/Envelope.antt =====
-- worker/main.py: the checks of single fields, `_event_envelope` and the preview of a body.
pub mod Accepted
use cloud_portfolio.Prelude.{
  ℕ, Bool, true, false, ◌&&◌, ◌||◌, not, Option, none, some, length, take, ltb, leb, if◌then◌else◌,
  pos, Text, codes, is_empty, starts_with, List, [], ◌∷◌, ◌++◌,
}
use cloud_portfolio.Errors.{Result, ok, err, value_error, ◌>>=◌, ◌>>◌, raise_if}
use cloud_portfolio.Json.{
  Value, null, int, str, obj, Fields, end, field, get, value_eq, same_type, dumps, utf8_size,
}
use cloud_portfolio.Json.Checks.{short_text, or_raise, get_or, get_value}
use cloud_portfolio.Json.Structure.{
  is_generic_event_type, validate_json_structure, max_json_nesting_depth,
}

at_least_two : Value → Bool
at_least_two (int (pos n)) = leb 2 n
at_least_two _ = false

-- `str(v).startswith(prefix)`, of a prefix with which the text of no other value begins.
text_starts_with : Value → Text → Bool
unfolding starts_with
text_starts_with (str s) prefix = starts_with s prefix
text_starts_with _ prefix = false

unfoldable pub is_generic_envelope : Fields → Bool
unfolding get_or at_least_two text_starts_with
is_generic_envelope job =
    at_least_two (get_or (codes "schema_version") (int (pos 1)) job)
    || text_starts_with (get_or (codes "route") (str []) job) (codes "POST:/v2/")

-- The event type as found, before it is checked.
unfoldable pub raw_event_type : Bool → Option Value → Result Value
raw_event_type generic (some v) = ok v
raw_event_type true none = err (value_error (codes "Generic envelope missing event_type"))
raw_event_type false none = ok (str (codes "legacy.message"))

checked_event_type : Bool → Value → Result Text
unfolding short_text is_generic_event_type
checked_event_type generic v = do
  event_type ← or_raise (short_text 50 (some v)) (codes "Invalid event_type")
  raise_if (generic && not (is_generic_event_type event_type)) (codes "Invalid generic event_type")
  ok event_type

unfoldable pub raw_payload : Bool → Fields → Result Value
unfolding get get_value
raw_payload true job =
    or_raise (get (codes "payload") job) (codes "Generic envelope missing payload")
raw_payload false job = ok (elim (get_value (codes "payload") job) [
  | null ↦ elim (get (codes "body") job) [
    | none ↦ null
    | some body ↦ obj (field (codes "text") body end)
  ]
  | v ↦ v
])

-- A key with a value that is not `None`, as a dict of that one key.
present_field : Text → Value → (Value → Value) → Fields → Fields
present_field k null wrap rest = rest
present_field k v wrap rest = field k (wrap v) rest

legacy_metadata : Fields → Fields
unfolding present_field get_value
legacy_metadata job =
    present_field (codes "classification") (get_value (codes "category") job) (λ v. v)
      (present_field (codes "external_references") (get_value (codes "payment_id") job)
        (λ v. obj (field (codes "payment") v end)) end)

unfoldable pub raw_metadata : Bool → Fields → Value
unfolding get_or get_value legacy_metadata
raw_metadata true job = get_or (codes "metadata") (obj end) job
raw_metadata false job = elim (get_value (codes "metadata") job) [
  | null ↦ obj (legacy_metadata job)
  | v ↦ v
]

as_object : Text → Value → Result Fields
as_object message (obj d) = ok d
as_object message _ = err (value_error message)

pub record Envelope : Type 0 where
  pub event_type : Text
  pub payload : Fields
  pub metadata : Fields

abbrev pub max_payload_bytes : ℕ
max_payload_bytes = 65536

abbrev pub max_metadata_bytes : ℕ
max_metadata_bytes = 16384

-- `len(json.dumps(d, ...).encode("utf-8"))`
unfoldable pub json_size : Fields → ℕ
unfolding dumps utf8_size
json_size d = utf8_size (dumps (obj d))

-- `_event_envelope`. After the checks of the structure `json.dumps` does not raise.
unfoldable pub event_envelope : Fields → Result Envelope
unfolding is_generic_envelope raw_event_type checked_event_type raw_payload raw_metadata as_object
    get json_size validate_json_structure
event_envelope job = do
  let generic = is_generic_envelope job
  found ← raw_event_type generic (get (codes "event_type") job)
  event_type ← checked_event_type generic found
  payload_value ← raw_payload generic job
  let metadata_value = raw_metadata generic job
  payload ← as_object (codes "Invalid payload") payload_value
  metadata ← as_object (codes "Invalid metadata") metadata_value
  validate_json_structure max_json_nesting_depth (obj payload)
  validate_json_structure max_json_nesting_depth (obj metadata)
  raise_if (ltb max_payload_bytes (json_size payload))
      (codes "Payload exceeds 65536 UTF-8 JSON bytes")
  raise_if (ltb max_metadata_bytes (json_size metadata))
      (codes "Metadata exceeds 16384 UTF-8 JSON bytes")
  ok (record { event_type = event_type; payload = payload; metadata = metadata })

-- The first of the keys that holds a non-empty text, cut to 1,000 characters.
preview_field : Fields → List Text → Option Text
unfolding get_value
preview_field payload [] = none
preview_field payload (key ∷ keys) = elim (get_value key payload) [
  | str [] ↦ preview_field payload keys
  | str (c ∷ s) ↦ some (take 1000 (c ∷ s))
  | _ ↦ preview_field payload keys
]

non_empty_or : Text → Text → Text
non_empty_or [] default = default
non_empty_or (c ∷ s) default = c ∷ s

-- `_legacy_body_preview`
unfoldable pub legacy_body_preview : Fields → Text
unfolding preview_field non_empty_or dumps
legacy_body_preview payload =
    elim (preview_field payload (codes "message" ∷ codes "text" ∷ codes "description" ∷ [])) [
      | some s ↦ s
      | none ↦ non_empty_or (take 1000 (dumps (obj payload))) (codes "{}")
    ]

conflicting : Option Value → Option Value → Bool
unfolding value_eq same_type
conflicting (some a) (some b) = not (same_type a b) || not (value_eq a b)
conflicting _ _ = false

-- `_validate_alias_pair`
unfoldable pub validate_alias_pair : Fields → Text → Text → Result (Unit {0})
unfolding conflicting get
validate_alias_pair payload canonical legacy =
    raise_if (conflicting (get canonical payload) (get legacy payload))
      (codes "Conflicting " ++ (canonical ++ (codes "/" ++ legacy)))

-- `_compatibility_text`
unfoldable pub compatibility_text : ℕ → Value → Option Text
compatibility_text limit (str s) = if is_empty s || ltb limit (length s) then none else some s
compatibility_text limit _ = none
