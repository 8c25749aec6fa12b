-- ===== src/Api/Dlq/Manual/Agreement.antt =====
-- The fields of a dead letter as the API and the replayer read them.
use cloud_portfolio.Api.Dlq.Item
use cloud_portfolio.Worker.Replayer
use cloud_portfolio.Prelude.{
  ℕ, ◌≡◌, refl, ap, ◌∙◌, Bool, true, false, not, ◌||◌, Option, none, some, Text, codes, arith, pos,
  if◌then◌else◌, if-false, leb, text_eq, ==_iff, subst,
}
use cloud_portfolio.Json.{Value, null, int, int_eq, Fields, get, put, value_eq, same_type}
use cloud_portfolio.Json.Checks.{
  short_text, positive_bigint, counter_bigint, get_or, get_value, number, max_postgres_bigint,
}
use cloud_portfolio.Json.Lookup.{get-put, get-put_other}
use cloud_portfolio.Worker.Replayer.{
  Candidate, counted, identified, with_room_id, aliased_candidate, structured_candidate, candidate,
  aliases_differ,
}
use cloud_portfolio.Api.Dlq.Item.{
  Letter, DlqItem, safe_int, safe_optional_positive_int, selected_event_field, differ, conflict_in,
  item_of, structured_item, summarize_dlq_item, as_dict, is_counter,
}
use cloud_portfolio.Api.Dlq.Manual.{open_count, replay_limit}

differ-aliases_differ : (a b : Option Value) → differ a b ≡ aliases_differ a b
unfolding differ aliases_differ
differ-aliases_differ (some a) (some b) = refl
differ-aliases_differ (some a) none = refl
differ-aliases_differ none b = refl

chained :
    (a b c : Bool)
    → (if a then true else if b then true else if c then true else false) ≡ a || (b || c)
chained true b c = refl
chained false true c = refl
chained false false true = refl
chained false false false = refl

pub conflicts_agree :
    (d : Fields) → Item.has_conflicting_event_aliases d ≡ Replayer.has_conflicting_event_aliases d
unfolding Item.has_conflicting_event_aliases Replayer.has_conflicting_event_aliases conflict_in
conflicts_agree d =
    rw
      (
        differ-aliases_differ (get (codes "stream_id") d) (get (codes "room_id") d),
        differ-aliases_differ (get (codes "actor_id") d) (get (codes "user_id") d),
        differ-aliases_differ (get (codes "stream_seq") d) (get (codes "room_seq") d),
      )
      (chained (aliases_differ (get (codes "stream_id") d) (get (codes "room_id") d))
        (aliases_differ (get (codes "actor_id") d) (get (codes "user_id") d))
        (aliases_differ (get (codes "stream_seq") d) (get (codes "room_seq") d)))

pub open_count-counter :
    (max_count n : ℕ) (v : Value)
    → open_count max_count v ≡ some n
    → (counter_bigint (some v) ≡ some n) × ((leb max_count n || leb max_postgres_bigint n) ≡ false)
unfolding open_count replay_limit counter_bigint
open_count-counter max_count n (int (pos m)) h = (ground (arith, h), ground (arith, h))
open_count-counter max_count n _ h = cc

pub safe_int-open_count :
    (max_count n : ℕ) (v : Value) → open_count max_count v ≡ some n → safe_int 0 0 v ≡ n
unfolding open_count replay_limit safe_int
safe_int-open_count max_count n (int (pos m)) h = ground (arith, h)
safe_int-open_count max_count n _ h = cc

pub safe_optional_positive_int-positive_bigint :
    (v : Value) → safe_optional_positive_int v ≡ positive_bigint (some v)
unfolding safe_optional_positive_int safe_int positive_bigint
safe_optional_positive_int-positive_bigint (int (pos n)) = ground arith
safe_optional_positive_int-positive_bigint v = refl

pub short_text-get :
    (limit : ℕ) (s : Text) (o : Option Value)
    → short_text limit (some (elim o [ none ↦ null | some v ↦ v ])) ≡ some s
    → short_text limit o ≡ some s
unfolding short_text
short_text-get limit s none h = cc
short_text-get limit s (some v) h = h

same_value-positive_bigint :
    (v w : Value) (n : ℕ)
    → (not (same_type v w) || not (value_eq v w)) ≡ false
    → positive_bigint (some v) ≡ some n
    → positive_bigint (some w) ≡ some n
unfolding same_type value_eq int_eq positive_bigint
same_value-positive_bigint (int (pos m)) (int (pos k)) n e h =
    let same : m ≡ k = (==_iff m k).0 (ground (arith, e)) in
    subst (λ i. positive_bigint (some (int (pos i))) ≡ some n) same h
same_value-positive_bigint (int (pos m)) w n e h = cc
same_value-positive_bigint v w n e h = cc

-- Only the room of a job is written by `with_room_id`.
get-with_room_id :
    (k : Text) (d : Fields) → text_eq k (codes "room_id") ≡ false → get k (with_room_id d) ≡ get k d
unfolding with_room_id
get-with_room_id k d h = resolved (get (codes "room_id") d) (get (codes "stream_id") d)
  where
    resolved :
        (o p : Option Value)
        → get k (elim o [
          | some v ↦ d
          | none ↦ elim p [ none ↦ d | some v ↦ put (codes "room_id") v d ]
        ])
          ≡ get k d
    resolved (some v) p = refl
    resolved none none = refl
    resolved none (some v) = get-put_other k (codes "room_id") v d h

-- The room of a job after `with_room_id` is the one that the API has selected.
pub positive_bigint-with_room_id :
    (d : Fields) (room : ℕ)
    → aliases_differ (get (codes "stream_id") d) (get (codes "room_id") d) ≡ false
    → positive_bigint (some (selected_event_field d (codes "stream_id") (codes "room_id")))
      ≡ some room
    → positive_bigint (get (codes "room_id") (with_room_id d)) ≡ some room
unfolding with_room_id aliases_differ selected_event_field get_value get_or positive_bigint
positive_bigint-with_room_id d room =
    resolved (get (codes "room_id") d) (get (codes "stream_id") d) refl
  where
    resolved :
        (o p : Option Value)
        → get (codes "room_id") d ≡ o
        → aliases_differ p o ≡ false
        → positive_bigint
            (some (elim p [ some v ↦ v | none ↦ elim o [ none ↦ null | some v ↦ v ] ]))
          ≡ some room
        → positive_bigint (
            get (codes "room_id") (elim o [
              | some v ↦ d
              | none ↦ elim p [ none ↦ d | some v ↦ put (codes "room_id") v d ]
            ]))
          ≡ some room
    resolved (some w) (some v) found same h =
        ap positive_bigint found ∙ same_value-positive_bigint v w room same h
    resolved (some w) none found same h = ap positive_bigint found ∙ h
    resolved none (some v) found same h = ap positive_bigint (get-put (codes "room_id") v d) ∙ h
    resolved none none found same h = cc

pub aliased_candidate-ok :
    (max_count room n : ℕ) (d : Fields) (s : Text)
    → short_text 80 (get (codes "request_id") d) ≡ some s
    → positive_bigint (get (codes "room_id") (with_room_id d)) ≡ some room
    → counter_bigint (some (get_or (codes "replay_count") (number 0) d)) ≡ some n
    → (leb max_count n || leb max_postgres_bigint n) ≡ false
    → aliased_candidate max_count d
      ≡ some (record { job = with_room_id d; request_id = s; room_id = room; replay_count = n })
unfolding aliased_candidate identified counted get_or
aliased_candidate-ok max_count room n d s request place count limit =
    let count' : counter_bigint (some (get_or (codes "replay_count") (number 0) (with_room_id d)))
        ≡ some n =
      ap (λ o. counter_bigint (some (elim o [ none ↦ number 0 | some v ↦ v ])))
        (get-with_room_id (codes "replay_count") d refl)
      ∙ count in
    ap
      (λ o.
        identified max_count (with_room_id d) o
          (positive_bigint (get (codes "room_id") (with_room_id d))))
      (ap (short_text 80) (get-with_room_id (codes "request_id") d refl) ∙ request)
    ∙ ap (identified max_count (with_room_id d) (some s)) place
    ∙ ap (counted max_count (with_room_id d) s room) count'
    ∙ if-false (leb max_count n || leb max_postgres_bigint n) none _ limit
