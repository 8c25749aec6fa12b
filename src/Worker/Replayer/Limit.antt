-- ===== src/Worker/Replayer/Limit.antt =====
-- The limit of the replays of one event.
use cloud_portfolio.Prelude.{
  ℕ, ◌+◌, ap, subst, pos, ◌⊎◌, inl, inr, ◌≤◌, ◌≡◌, refl, Bool, true, false, ◌||◌, Option, none,
  some, leb, if◌then◌else◌, Text, codes, arith,
}
use cloud_portfolio.Errors.{Result, ok, err}
use cloud_portfolio.Json.{Value, null, bool, int, float, str, arr, obj, Fields, get, put}
use cloud_portfolio.Json.Lookup.{get-put_other}
use cloud_portfolio.Json.Structure.{validate_json_structure, max_json_wire_nesting_depth}
use cloud_portfolio.Json.Checks.{
  max_postgres_bigint, counter_bigint, get_or, number, short_text, positive_bigint,
}
use cloud_portfolio.Worker.Notice.{is_invalid_kafka_payload}
use cloud_portfolio.Worker.Replayer.{
  Candidate, counted, identified, with_room_id, aliased_candidate, has_conflicting_event_aliases,
  structured_candidate, candidate,
}

-- The count of a dict: that under `replay_count`, or 0 where the key is missing.
abbrev pub IsCount : Fields → ℕ → Type 0
IsCount d n =
    (get (codes "replay_count") d ≡ some (number n))
    ⊎ ((get (codes "replay_count") d ≡ none) × (n ≡ 0))

counted_from :
    (o : Option Value) (n : ℕ)
    → counter_bigint (some (elim o [ none ↦ number 0 | some v ↦ v ])) ≡ some n
    → (o ≡ some (number n)) ⊎ ((o ≡ none) × (n ≡ 0))
unfolding counter_bigint
counted_from none n h = inr (refl, ground (arith, h))
counted_from (some (int (pos m))) n h =
    inl (ap (λ k. some (number k)) (the_same m n (leb m max_postgres_bigint) h))
  where
    the_same : (m n : ℕ) (b : Bool) → (if b then some m else none) ≡ some n → m ≡ n
    the_same m n true e = cc
    the_same m n false e = cc
counted_from (some v) n h = cc

get_room : (d : Fields) → get (codes "replay_count") (with_room_id d) ≡ get (codes "replay_count") d
unfolding with_room_id
get_room d = resolved (get (codes "room_id") d) (get (codes "stream_id") d)
  where
    resolved :
        (o p : Option Value)
        → get (codes "replay_count") (elim o [
          | some v ↦ d
          | none ↦ elim p [ none ↦ d | some v ↦ put (codes "room_id") v d ]
        ])
          ≡ get (codes "replay_count") d
    resolved (some v) p = refl
    resolved none none = refl
    resolved none (some v) = get-put_other (codes "replay_count") (codes "room_id") v d refl

module _ (max_count : ℕ) where
  -- What is let through: the count is that of the record, and one more keeps within the limit and the
  -- column.
  record IsOpen (d : Fields) (c : Candidate) : Type 0 where
    pub count : IsCount d c.replay_count
    pub limit : c.replay_count + 1 ≤ max_count
    pub column : c.replay_count + 1 ≤ max_postgres_bigint

  abbrev IsOpenOf : Fields → Option Candidate → Type 0
  IsOpenOf d none = Unit
  IsOpenOf d (some c) = IsOpen d c

  if-IsOpen :
      (d : Fields) (b : Bool) (o : Option Candidate)
      → (b ≡ false → IsOpenOf d o)
      → IsOpenOf d (if b then none else o)
  if-IsOpen d true o h = tt
  if-IsOpen d false o h = h refl

  counted-IsOpen :
      (d d' : Fields) (request_id : Text) (room_id : ℕ) (o : Option ℕ)
      → ((n : ℕ) → o ≡ some n → IsCount d n)
      → IsOpenOf d (counted max_count d' request_id room_id o)
  unfolding counted
  counted-IsOpen d d' request_id room_id none h = tt
  counted-IsOpen d d' request_id room_id (some n) h =
      if-IsOpen d (leb max_count n || leb max_postgres_bigint n) _
        (λ e. record { count = h n refl; limit = ground (arith, e); column = ground (arith, e) })

  identified-IsOpen :
      (d : Fields) (request_id : Option Text) (room_id : Option ℕ)
      → IsOpenOf d (identified max_count (with_room_id d) request_id room_id)
  unfolding identified
  identified-IsOpen d (some request_id) (some room_id) =
      counted-IsOpen d (with_room_id d) request_id room_id
        (counter_bigint (some (get_or (codes "replay_count") (number 0) (with_room_id d))))
        (λ n e. counted_from (get (codes "replay_count") d) n (
          subst (λ o. counter_bigint (some (elim o [ none ↦ number 0 | some v ↦ v ])) ≡ some n)
            (get_room d) (unfold get_or in e)))
  identified-IsOpen d (some request_id) none = tt
  identified-IsOpen d none room_id = tt

  structured-IsOpen :
      (d : Fields) (r : Result (Unit {0})) → IsOpenOf d (structured_candidate max_count d r)
  unfolding structured_candidate aliased_candidate
  structured-IsOpen d (err e) = tt
  structured-IsOpen d (ok u) = if-IsOpen d (has_conflicting_event_aliases d) _ (λ e.
      identified-IsOpen d (short_text 80 (get (codes "request_id") (with_room_id d)))
        (positive_bigint (get (codes "room_id") (with_room_id d))))

  -- What the checks let through of a record: a dict, by its count.
  abbrev pub IsLimited : Value → Option Candidate → Type 0
  IsLimited v none = Unit
  IsLimited v (some c) =
      (d : Fields) × (v ≡ obj d)
      × IsCount d c.replay_count
      × (c.replay_count + 1 ≤ max_count)
      × (c.replay_count + 1 ≤ max_postgres_bigint)

  of_dict : (d : Fields) (o : Option Candidate) → IsOpenOf d o → IsLimited (obj d) o
  of_dict d none h = tt
  of_dict d (some c) h = (d, refl, h.count, h.limit, h.column)

  -- Whatever a record of the DLQ says, the checks of `replay_one` let through only a dict, and only where
  -- its `replay_count` (0 where it is missing) is the one of the replay, and one more replay keeps within
  -- the limit that is set and within the largest bigint.
  pub candidate-IsLimited : (v : Value) → IsLimited v (candidate max_count v)
  unfolding candidate
  candidate-IsLimited (obj d) = of_dict d _ (
      if-IsOpen d (is_invalid_kafka_payload d) _
        (λ e. structured-IsOpen d (validate_json_structure max_json_wire_nesting_depth (obj d))))
  candidate-IsLimited null = tt
  candidate-IsLimited (bool b) = tt
  candidate-IsLimited (int n) = tt
  candidate-IsLimited (float m e) = tt
  candidate-IsLimited (str s) = tt
  candidate-IsLimited (arr xs) = tt
