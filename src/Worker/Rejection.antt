-- ===== src/Worker/Rejection.antt =====
-- worker/main.py: `move_invalid_ingress_to_dlq`, the record of an ingress value that no job is made of.
use cloud_portfolio.Prelude.{
  ℕ, zero, suc, ◌+◌, ◌/◌, ◌%◌, Bool, true, ◌&&◌, ◌||◌, not, Option, none, some, List, [], ◌∷◌, ◌++◌,
  length, take, ltb, leb, ◌==◌, if◌then◌else◌, pos, Text, codes,
}
use cloud_portfolio.Errors.{Result, ok, err}
use cloud_portfolio.Json.{
  Value, null, bool, int, float, str, arr, obj, Items, nil, cons, Fields, end, field, get, dumps,
  is_finite,
}
use cloud_portfolio.Json.Checks.{
  short_text, positive_bigint, counter_bigint, get_or, get_value, number, number_or_null,
}
use cloud_portfolio.Json.Structure.{contains_utf16_surrogate}
use cloud_portfolio.Worker.World.{World, Round, publish_dlq_job, update_request_status}

-- What a handler may be given: bytes, a decoded value, or the marker of bytes that were not decoded.
pub data Raw : Type 0 where
  bytes : List ℕ → Raw
  decoded : Value → Raw
  marked : Fields → Raw

-- Hashing and base64, and the id that `uuid4` makes.
pub record Codec : Type 0 where
  pub sha256_hex : List ℕ → Text
  pub base64_encode : List ℕ → Text
  pub base64_decode : Text → Option (List ℕ)
  pub fresh_id : Text

utf8_char : ℕ → List ℕ
utf8_char c =
    if ltb c 0x80
    then c ∷ []
    else if ltb c 0x800
    then (0xc0 + c / 64) ∷ (0x80 + c % 64) ∷ []
    else if ltb c 0x10000
    then (0xe0 + c / 4096) ∷ (0x80 + c / 64 % 64) ∷ (0x80 + c % 64) ∷ []
    else (0xf0 + c / 262144) ∷ (0x80 + c / 4096 % 64) ∷ (0x80 + c / 64 % 64) ∷ (0x80 + c % 64) ∷ []

-- `s.encode("utf-8", errors="replace")`: a surrogate becomes `?`.
utf8_replace : Text → List ℕ
unfolding utf8_char
utf8_replace [] = []
utf8_replace (c ∷ s) =
    (if leb 0xd800 c && leb c 0xdfff then b'?' ∷ [] else utf8_char c) ++ utf8_replace s

mutual
  unfolding is_finite

  all_finite : Value → Bool
  all_finite (float bits repr) = is_finite bits
  all_finite (arr items) = all_finite_items items
  all_finite (obj fields) = all_finite_fields fields
  all_finite _ = true

  all_finite_items : Items → Bool
  all_finite_items nil = true
  all_finite_items (cons v items) = all_finite v && all_finite_items items

  all_finite_fields : Fields → Bool
  all_finite_fields end = true
  all_finite_fields (field k v fields) = all_finite v && all_finite_fields fields

value_type_name : Value → Text
value_type_name null = codes "NoneType"
value_type_name (bool b) = codes "bool"
value_type_name (int n) = codes "int"
value_type_name (float b r) = codes "float"
value_type_name (str s) = codes "str"
value_type_name (arr xs) = codes "list"
value_type_name (obj d) = codes "dict"

-- `json.dumps(…).encode("utf-8")`, or a note where that raises.
dumped_bytes : Text → Value → List ℕ
unfolding dumps utf8_replace all_finite contains_utf16_surrogate
dumped_bytes type_name v =
    if all_finite v && not (contains_utf16_surrogate (dumps v))
    then utf8_replace (dumps v)
    else codes "<" ++ (type_name ++ codes ":unserializable>")

raw_bytes : Raw → List ℕ
unfolding utf8_replace dumped_bytes value_type_name
raw_bytes (bytes b) = b
raw_bytes (decoded (str s)) = utf8_replace s
raw_bytes (decoded v) = dumped_bytes (value_type_name v) v
raw_bytes (marked d) = dumped_bytes (codes "InvalidKafkaPayload") (obj d)

raw_source : Raw → Text
raw_source (bytes b) = codes "raw_input_bytes"
raw_source (decoded (str s)) = codes "raw_input_bytes"
raw_source (decoded v) = codes "normalized_json"
raw_source (marked d) = codes "kafka_raw_bytes"

-- `raw if isinstance(raw, dict) else {}`
unfoldable pub raw_dict : Raw → Fields
raw_dict (decoded (obj d)) = d
raw_dict (marked d) = d
raw_dict _ = end

or_default {ℓ} : {A : Type ℓ} → Option A → A → A
or_default none a = a
or_default (some b) a = b

pub record Diagnostic : Type 0 where
  pub size : ℕ
  pub sha256 : Text
  pub preview : List ℕ

marker_size : Value → ℕ → ℕ
marker_size (int (pos n)) size = n
marker_size _ size = size

is_hex_digit : ℕ → Bool
is_hex_digit c = (leb b'0' c && leb c b'9') || (leb b'a' c && leb c b'f')

all_hex : Text → Bool
unfolding is_hex_digit
all_hex [] = true
all_hex (c ∷ s) = is_hex_digit c && all_hex s

marker_sha256 : Value → Text → Text
unfolding all_hex
marker_sha256 (str s) digest = if length s == 64 && all_hex s then s else digest
marker_sha256 _ digest = digest

-- `"\x00"` is written as the two characters `\0`.
replace_nul : Text → Text
replace_nul [] = []
replace_nul (zero ∷ s) = codes "\\0" ++ replace_nul s
replace_nul (suc c ∷ s) = suc c ∷ replace_nul s

module _ (codec : Codec) where
  marker_preview : Value → List ℕ → List ℕ
  marker_preview (str s) preview = elim (codec.base64_decode s) [
    | none ↦ preview
    | some decoded_bytes ↦ take 1024 decoded_bytes
  ]
  marker_preview _ preview = preview

  own_diagnostic : List ℕ → Diagnostic
  own_diagnostic b = record { size = length b; sha256 = codec.sha256_hex b; preview = take 1024 b }

  with_marker : Fields → Diagnostic → Diagnostic
  unfolding get_value marker_size marker_sha256 marker_preview
  with_marker source d = record {
    size = marker_size (get_value (codes "raw_size") source) d.size;
    sha256 = marker_sha256 (get_value (codes "raw_sha256") source) d.sha256;
    preview = marker_preview (get_value (codes "raw_base64") source) d.preview;
  }

  diagnostic : Raw → Diagnostic
  unfolding own_diagnostic with_marker raw_bytes
  diagnostic (marked d) = with_marker d (own_diagnostic (raw_bytes (marked d)))
  diagnostic (bytes b) = own_diagnostic (raw_bytes (bytes b))
  diagnostic (decoded v) = own_diagnostic (raw_bytes (decoded v))

  invalid_id : Fields → Text
  unfolding short_text get or_default
  invalid_id source =
      or_default (short_text 80 (get (codes "request_id") source))
        (codes "invalid-" ++ codec.fresh_id)

  failed_reason : Text → Text
  unfolding replace_nul
  failed_reason reason = codes "invalid_ingress:" ++ take 300 (replace_nul reason)

  invalid_payload : Raw → Text → Text → Fields
  unfolding invalid_id failed_reason positive_bigint counter_bigint get get_or diagnostic raw_source
      or_default raw_dict
  invalid_payload raw reason failed_at =
      let source = raw_dict raw in
      let d = diagnostic raw in
      field (codes "request_id") (str (invalid_id source)) (
        field (codes "room_id")
          (number (or_default (positive_bigint (get (codes "room_id") source)) 0))
          (field (codes "user_id") (number_or_null (positive_bigint (get (codes "user_id") source)))
            (field (codes "__invalid_kafka_payload__") (bool true) (
              field (codes "failed_reason") (str (failed_reason reason)) (
                field (codes "failed_at") (str failed_at) (
                  field (codes "retry_count")
                    (number (
                      or_default
                        (counter_bigint (some (get_or (codes "retry_count") (number 0) source))) 0))
                    (field (codes "replay_count")
                      (number (
                        or_default
                          (counter_bigint (some (get_or (codes "replay_count") (number 0) source)))
                          0))
                      (field (codes "diagnostic_source") (str (raw_source raw)) (
                        field (codes "diagnostic_size_bytes") (number d.size) (
                          field (codes "diagnostic_sha256") (str d.sha256) (
                            field (codes "diagnostic_preview_base64")
                              (str (codec.base64_encode d.preview)) end)))))))))))

  room_key : Option ℕ → Fields → Fields
  room_key none rest = rest
  room_key (some n) rest = field (codes "room_id") (number n) rest

  invalid_status : Fields → Text → Text → ℕ → Fields
  unfolding invalid_id failed_reason positive_bigint get room_key
  invalid_status source reason failed_at user_id =
      field (codes "request_id") (str (invalid_id source)) (
        field (codes "status") (str (codes "failed_dlq")) (
          field (codes "user_id") (number user_id) (
            field (codes "failed_reason") (str (failed_reason reason)) (
              field (codes "failed_at") (str failed_at)
                (room_key (positive_bigint (get (codes "room_id") source)) end)))))

  announce_invalid : Round → Fields → Text → World → World
  unfolding update_request_status invalid_id invalid_status positive_bigint get
  announce_invalid round source reason w = elim (positive_bigint (get (codes "user_id") source)) [
    | none ↦ w
    | some user_id ↦
        update_request_status round.status_fault (invalid_id source)
          (invalid_status source reason round.failed_at user_id) w
  ]

  -- `move_invalid_ingress_to_dlq`
  unfoldable pub move_invalid_ingress_to_dlq :
      Round → Raw → Text → World → Result (Unit {0}) × World
  unfolding publish_dlq_job announce_invalid invalid_payload positive_bigint get or_default raw_dict
  move_invalid_ingress_to_dlq round raw reason w =
      let (r, w') =
        publish_dlq_job round.send
          (or_default (positive_bigint (get (codes "room_id") (raw_dict raw))) 0)
          (invalid_payload raw reason round.failed_at) w in
      elim r [
        | err e ↦ (err e, w')
        | ok u ↦ (ok tt, announce_invalid round (raw_dict raw) reason w')
      ]
