-- ===== src/Api/Dlq/Item.antt =====
-- portfolio/api.py: `_safe_int` and its kin, and `_summarize_dlq_item`. `repr` is Python's, of a value
-- that is no text; `none` where it raises.
use cloud_portfolio.Prelude.{
  ℕ, Bool, true, false, ◌&&◌, ◌||◌, not, Option, none, some, List, [], ◌∷◌, take, ltb, leb,
  if◌then◌else◌, is_some, pos, Text, codes, is_empty,
}
use cloud_portfolio.Errors.{Result, ok, err}
use cloud_portfolio.Json.{
  Value, null, bool, int, str, obj, Fields, end, field, get, value_eq, same_type,
}
use cloud_portfolio.Json.Checks.{short_text, get_or, get_value, number, max_postgres_bigint}
use cloud_portfolio.Json.Structure.{
  validate_json_structure, max_json_nesting_depth, max_json_wire_nesting_depth,
}
use cloud_portfolio.Worker.Notice.{is_invalid_kafka_payload}

-- `_safe_int`; its callers give a minimum that is not negative.
unfoldable pub safe_int : ℕ → ℕ → Value → ℕ
safe_int default minimum (int (pos n)) =
    if ltb n minimum then default else if ltb max_postgres_bigint n then default else n
safe_int default minimum _ = default

-- `_safe_optional_positive_int`
unfoldable pub safe_optional_positive_int : Value → Option ℕ
unfolding safe_int
safe_optional_positive_int value =
    let parsed = safe_int 0 1 value in
    if ltb 0 parsed && leb parsed max_postgres_bigint then some parsed else none

-- `_safe_optional_nonnegative_int`
unfoldable pub safe_optional_nonnegative_int : Value → Option ℕ
safe_optional_nonnegative_int (int (pos n)) = if leb n max_postgres_bigint then some n else none
safe_optional_nonnegative_int _ = none

-- `_selected_event_field`
unfoldable pub selected_event_field : Fields → Text → Text → Value
unfolding get get_value
selected_event_field payload canonical legacy = elim (get canonical payload) [
  | some v ↦ v
  | none ↦ get_value legacy payload
]

unfoldable pub differ : Option Value → Option Value → Bool
unfolding value_eq same_type
differ (some a) (some b) = not (same_type a b) || not (value_eq a b)
differ _ _ = false

-- The loop of `_has_conflicting_event_aliases` over its pairs.
unfoldable pub conflict_in : Fields → List (Text × Text) → Bool
unfolding differ get
conflict_in payload [] = false
conflict_in payload ((canonical, legacy) ∷ pairs) =
    let rest = conflict_in payload pairs in
    if differ (get canonical payload) (get legacy payload) then true else rest

abbrev aliases : List (Text × Text)
aliases =
    (codes "stream_id", codes "room_id")
    ∷ (codes "actor_id", codes "user_id")
    ∷ (codes "stream_seq", codes "room_seq")
    ∷ []

-- `_has_conflicting_event_aliases`
unfoldable pub has_conflicting_event_aliases : Fields → Bool
unfolding conflict_in
has_conflicting_event_aliases payload = conflict_in payload aliases

-- `not isinstance(value, int) or not 0 <= value <= _MAX_POSTGRES_BIGINT`, with `type(value) is int`.
unfoldable pub is_counter : Value → Bool
is_counter (int (pos n)) = leb n max_postgres_bigint
is_counter _ = false

abbrev or_else : Option Text → Option Text → Option Text
or_else (some s) other = if is_empty s then other else some s
or_else none other = other

-- A record of the topic as `list_recent_topic_messages` gives it; a field that is missing is `None`.
pub record Letter : Type 0 where
  pub topic : Value
  pub partition : Value
  pub offset : Value
  pub timestamp : Value
  pub key : Value
  pub value : Value

pub record DlqItem : Type 0 where
  pub topic : Option Text
  pub partition : Option ℕ
  pub offset : Option ℕ
  pub timestamp : Option ℕ
  pub key : Option Text
  pub request_id : Option Text
  pub stream_id : Option ℕ
  pub user_id : Option ℕ
  pub failed_reason : Option Text
  pub retry_count : ℕ
  pub replay_count : ℕ
  pub replayable : Bool
  pub max_replay_count : ℕ
  pub failed_at : Option Text
  pub replayed_at : Option Text
  pub payload : Fields

module _ (repr : Value → Option Text) where
  shown : Value → Option Text
  shown (str s) = some s
  shown v = repr v

  valid_text : Text → Result (Unit {0}) → Option Text
  valid_text s (ok u) = some s
  valid_text s (err e) = none

  checked_text : ℕ → Option Text → Option Text
  unfolding valid_text validate_json_structure
  checked_text max_length none = none
  checked_text max_length (some s) =
      let cut = take max_length s in
      valid_text cut (validate_json_structure max_json_nesting_depth (str cut))

  -- `_safe_optional_text`
  unfoldable pub safe_optional_text : ℕ → Value → Option Text
  unfolding shown checked_text
  safe_optional_text max_length null = none
  safe_optional_text max_length value = checked_text max_length (shown value)

  -- The value that stands for one that cannot be shown.
  unrepresentable : Value → Fields
  unfolding safe_optional_text
  unrepresentable raw = field (codes "__invalid_kafka_payload__") (bool true) (
      field (codes "raw_preview")
        (str (elim (or_else (safe_optional_text 500 raw) none) [
          | some s ↦ s
          | none ↦ codes "unrepresentable payload"
        ]))
        end)

  unfoldable pub as_dict : Value → Fields
  unfolding unrepresentable
  as_dict (obj d) = d
  as_dict v = unrepresentable v

  module _ (max_count : ℕ) where
    -- The item of a value that is a dict, by whether its structure is invalid.
    unfoldable pub item_of : Letter → Fields → Bool → DlqItem
    unfolding short_text selected_event_field safe_optional_positive_int get_or get_value safe_int
        is_counter is_invalid_kafka_payload has_conflicting_event_aliases
        safe_optional_nonnegative_int safe_optional_text
    item_of letter value structure_invalid =
        let request_id = short_text 80 (some (get_value (codes "request_id") value)) in
        let stream_id =
          safe_optional_positive_int
            (selected_event_field value (codes "stream_id") (codes "room_id")) in
        let user_id =
          safe_optional_positive_int
            (selected_event_field value (codes "actor_id") (codes "user_id")) in
        let retry_raw = get_or (codes "retry_count") (number 0) value in
        let replay_raw = get_or (codes "replay_count") (number 0) value in
        let replay_count = safe_int 0 0 replay_raw in
        let invalid_payload =
          structure_invalid
          || (is_invalid_kafka_payload value
              || (has_conflicting_event_aliases value
                  || (not (is_some request_id)
                      || (not (is_some stream_id)
                          || (not (is_some user_id)
                              || (not (is_counter retry_raw) || not (is_counter replay_raw))))))) in
        record {
          topic = safe_optional_text 200 letter.topic;
          partition = safe_optional_nonnegative_int letter.partition;
          offset = safe_optional_nonnegative_int letter.offset;
          timestamp = safe_optional_nonnegative_int letter.timestamp;
          key = safe_optional_text 500 letter.key;
          request_id = request_id;
          stream_id = stream_id;
          user_id = user_id;
          failed_reason =
              or_else (safe_optional_text 500 (get_value (codes "failed_reason") value))
                (if invalid_payload then some (codes "invalid_dlq_payload") else none);
          retry_count = safe_int 0 0 retry_raw;
          replay_count = replay_count;
          replayable = not invalid_payload && ltb replay_count max_count;
          max_replay_count = max_count;
          failed_at = safe_optional_text 100 (get_value (codes "failed_at") value);
          replayed_at = safe_optional_text 100 (get_value (codes "replayed_at") value);
          payload = value;
        }

    unfoldable pub structured_item : Letter → Fields → Result (Unit {0}) → DlqItem
    unfolding item_of unrepresentable
    structured_item letter value (ok u) = item_of letter value false
    structured_item letter value (err e) = item_of letter (unrepresentable letter.value) true

    -- `_summarize_dlq_item`
    unfoldable pub summarize_dlq_item : Letter → DlqItem
    unfolding as_dict structured_item validate_json_structure
    summarize_dlq_item letter =
        let value = as_dict letter.value in
        structured_item letter value
          (validate_json_structure max_json_wire_nesting_depth (obj value))
