-- ===== src/Api/Dlq/Manual/Eligible.antt =====
-- What the API replays by hand against what the replayer of the worker takes.
use cloud_portfolio.Api.Dlq.Manual.Agreement.{
  conflicts_agree, open_count-counter, safe_optional_positive_int-positive_bigint, short_text-get,
  positive_bigint-with_room_id, aliased_candidate-ok,
}
use cloud_portfolio.Api.Dlq.Item
use cloud_portfolio.Worker.Replayer
use cloud_portfolio.Prelude.{
  ℕ, ◌≡◌, refl, ap, sym, ◌∙◌, Bool, true, false, not, ◌||◌, ◌&&◌, Option, none, some, Text, codes,
  is_some, if◌then◌else◌, if-false, ltb, subst,
}
use cloud_portfolio.Errors.{Result, ok, err}
use cloud_portfolio.Json.{Value, obj, Fields, get}
use cloud_portfolio.Json.Checks.{get_or, number}
use cloud_portfolio.Json.Structure.{validate_json_structure, max_json_wire_nesting_depth}
use cloud_portfolio.Worker.Notice.{is_invalid_kafka_payload}
use cloud_portfolio.Worker.Replayer.{
  Candidate, counted, identified, with_room_id, aliased_candidate, structured_candidate, candidate,
  aliases_differ,
}
use cloud_portfolio.Api.Answer.{Answer, done, failed, Failure}
use cloud_portfolio.Api.Dlq.Item.{
  Letter, DlqItem, safe_int, safe_optional_positive_int, selected_event_field, differ, conflict_in,
  item_of, structured_item, summarize_dlq_item, as_dict, is_counter,
}
use cloud_portfolio.Api.Dlq.Manual.{replay_of, replay_payload, printed_id}

pub guarded_done :
    {A : Type 0} (b : Bool) (x : Answer A) (f : Failure) (c : A)
    → (if b then x else failed f) ≡ done c
    → (b ≡ true) × (x ≡ done c)
guarded_done true x f c h = (refl, h)
guarded_done false x f c h = cc

pub replay_of-done :
    (max_count : ℕ) (o n : Option ℕ) (item : DlqItem) (c : Candidate)
    → replay_of max_count o n item ≡ done c
    → (o ≡ some c.room_id)
      × (n ≡ some c.replay_count)
      × (c.job ≡ item.payload)
      × (c.request_id ≡ printed_id item.request_id)
unfolding replay_of
replay_of-done max_count none n item c h = cc
replay_of-done max_count (some room) none item c h = cc
replay_of-done max_count (some room) (some count) item c h =
    let made : Candidate = record {
      job = item.payload;
      request_id = printed_id item.request_id;
      room_id = room;
      replay_count = count;
    } in
    let same : made ≡ c = cc in
    (
      ap (λ (c : Candidate). some c.room_id) same,
      ap (λ (c : Candidate). some c.replay_count) same,
      ap (λ (c : Candidate). c.job) (sym same),
      ap (λ (c : Candidate). c.request_id) (sym same),
    )

-- What a verdict of `item_of` has established.
replayable_parts :
    (invalid conflict named rest below : Bool)
    → (not (false || (invalid || (conflict || (not named || rest)))) && below) ≡ true
    → (invalid ≡ false) × (conflict ≡ false) × (named ≡ true)
replayable_parts false false true rest below h = (refl, refl, refl)
replayable_parts false false false rest below h = cc
replayable_parts false true named rest below h = cc
replayable_parts true conflict named rest below h = cc

short_text-printed : (o : Option Text) → is_some o ≡ true → o ≡ some (printed_id o)
unfolding printed_id
short_text-printed none h = cc
short_text-printed (some s) h = refl

streams_agree :
    (d : Fields)
    → Replayer.has_conflicting_event_aliases d ≡ false
    → aliases_differ (get (codes "stream_id") d) (get (codes "room_id") d) ≡ false
unfolding Replayer.has_conflicting_event_aliases
streams_agree d h =
    first (aliases_differ (get (codes "stream_id") d) (get (codes "room_id") d))
      (aliases_differ (get (codes "actor_id") d) (get (codes "user_id") d)
        || aliases_differ (get (codes "stream_seq") d) (get (codes "room_seq") d))
      h
  where
    first : (a b : Bool) → (a || b) ≡ false → a ≡ false
    first false b h = refl
    first true b h = h

module _ (repr : Value → Option Text) (max_count : ℕ) (letter : Letter) (d : Fields)
    (c : Candidate) where
  taken : Candidate
  taken = record c { job = with_room_id c.job }

  item_of-IsTaken :
      replay_payload max_count (item_of repr max_count letter d false) ≡ done c
      → (is_invalid_kafka_payload d ≡ false)
        × (structured_candidate max_count d (ok tt) ≡ some taken)
  unfolding replay_payload item_of structured_candidate taken
  item_of-IsTaken h =
      let item : DlqItem = item_of repr max_count letter d false in
      let (replayable, replayed) = guarded_done item.replayable _ _ c h in
      let (place, count, job, request) = replay_of-done max_count _ _ item c replayed in
      let (valid, agree, named) =
        replayable_parts (is_invalid_kafka_payload d) (Item.has_conflicting_event_aliases d)
          (is_some item.request_id)
          (not (is_some item.stream_id)
            || (not (is_some item.user_id)
                || (not (is_counter (get_or (codes "retry_count") (number 0) d))
                    || not (is_counter (get_or (codes "replay_count") (number 0) d)))))
          (ltb item.replay_count max_count) replayable in
      let (counts, limit) =
        open_count-counter max_count c.replay_count (get_or (codes "replay_count") (number 0) d)
          count in
      let apart : Replayer.has_conflicting_event_aliases d ≡ false =
        sym (conflicts_agree d) ∙ agree in
      let shape : Fields → Text → Candidate = λ j t. record {
        job = with_room_id j;
        request_id = t;
        room_id = c.room_id;
        replay_count = c.replay_count;
      } in
      (
        valid,
        if-false (Replayer.has_conflicting_event_aliases d) none (aliased_candidate max_count d)
              apart
            ∙ aliased_candidate-ok max_count c.room_id c.replay_count d (printed_id item.request_id)
                (short_text-get 80 _ (get (codes "request_id") d)
                  (short_text-printed item.request_id named))
                (positive_bigint-with_room_id d c.room_id (streams_agree d apart) (
                  sym (
                    safe_optional_positive_int-positive_bigint
                      (selected_event_field d (codes "stream_id") (codes "room_id")))
                  ∙ place))
                counts limit
            ∙ ap (λ t. some (shape d t)) (sym request)
            ∙ ap (λ j. some (shape j c.request_id)) (sym job),
      )

  structured_item-IsTaken :
      (r : Result (Unit {0}))
      → replay_payload max_count (structured_item repr max_count letter d r) ≡ done c
      → (is_invalid_kafka_payload d ≡ false) × (structured_candidate max_count d r ≡ some taken)
  unfolding structured_item
  structured_item-IsTaken (ok u) h = item_of-IsTaken h
  structured_item-IsTaken (err e) h = unfold item_of in unfold replay_payload in cc

  -- Let the API make of a dead letter that is a dict a job to be replayed by hand. Then the replayer of
  -- the worker takes that letter too, for the same request, with the same count, to the same room, and
  -- its job is that of the API, with the room written under `room_id`.
  pub replay_payload-IsCandidate :
      letter.value ≡ obj d
      → replay_payload max_count (summarize_dlq_item repr max_count letter) ≡ done c
      → candidate max_count (obj d) ≡ some (record c { job = with_room_id c.job })
  unfolding summarize_dlq_item candidate taken as_dict
  replay_payload-IsCandidate value h =
      let v : replay_payload max_count (
            structured_item repr max_count letter (as_dict repr (obj d))
              (validate_json_structure max_json_wire_nesting_depth (obj (as_dict repr (obj d)))))
          ≡ done c =
        subst
          (λ v.
            replay_payload max_count (
              structured_item repr max_count letter (as_dict repr v)
                (validate_json_structure max_json_wire_nesting_depth (obj (as_dict repr v))))
            ≡ done c)
          value h in
      let (valid, same) =
        structured_item-IsTaken (validate_json_structure max_json_wire_nesting_depth (obj d)) v in
      rw valid same
