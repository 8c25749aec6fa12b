-- ===== src/Tests/Replays.antt =====
-- The theorems on the replay of dead letters through the API at a concrete one.
use cloud_portfolio.Prelude.{ℕ, ◌≡◌, refl, Option, none, some, List, [], ◌∷◌, Text, codes}
use cloud_portfolio.Errors.{Result, ok}
use cloud_portfolio.Json.{Value, null, str, obj, Fields, end, field}
use cloud_portfolio.Json.Checks.{number}
use cloud_portfolio.Database.Session.{healthy}
use cloud_portfolio.Store.Claim.{published, claim_dlq_replay}
use cloud_portfolio.Store.Claim.History.{LaterSteps, claims, next, stop}
use cloud_portfolio.Worker.Outbox.{acknowledged}
use cloud_portfolio.Worker.World.{World}
use cloud_portfolio.Worker.Replayer.{Candidate, Replay, candidate, replay_one, with_room_id}
use cloud_portfolio.Api.Answer.{done}
use cloud_portfolio.Api.Dlq.{replay_ingress_dlq_event}
use cloud_portfolio.Api.Dlq.Item.{Letter, summarize_dlq_item}
use cloud_portfolio.Api.Dlq.Manual.{Replayed, replay_payload, replay_item, printed_id}
use cloud_portfolio.Api.Dlq.Manual.Final.{IsRefused}
use cloud_portfolio.Api.Dlq.Manual.Eligible.{replay_payload-IsCandidate}
use cloud_portfolio.Api.Dlq.Manual.Exclusion.{IsSkipped, replay_item-IsExclusive}
use cloud_portfolio.Api.Dlq.Replays.{
  IsOwnReplay, replay_ingress_dlq_event-IsOwnReplay, replay_ingress_dlq_event-once,
}
use cloud_portfolio.Tests.{room, world}

-- A dead letter of the user 7, read twice from the DLQ.
abbrev letter : Letter
letter = record {
  topic = str (codes "dlq");
  partition = number 0;
  offset = number 3;
  timestamp = number 1000;
  key = null;
  value = obj (
      field (codes "request_id") (str (codes "r1"))
        (field (codes "room_id") (number 1) (field (codes "user_id") (number 7) end)));
}

abbrev recent : ℕ → Result (List Letter)
recent limit = ok (letter ∷ [])

abbrev no_repr : Value → Option Text
no_repr v = none

abbrev manual : Text → Replay
manual token = record {
  claim_fault = healthy;
  release_fault = healthy;
  mark_fault = healthy;
  send = acknowledged;
  token = token;
  claimed_at = 100;
  marked_at = 110;
  replayed_at = codes "2026-01-01T12:00:00+00:00";
}

abbrev replayed : Replayed
replayed = record {
  request_id = codes "r1";
  stream_id = 1;
  replay_count = 1;
  replayed_at = codes "2026-01-01T12:00:00+00:00";
}

abbrev after_replay : World
after_replay = record {
  database = record room {
    intake =
        record {
          route = codes "POST:/v1/dlq/ingress/replay";
          idem_key = codes "r1:0";
          request_id = codes "published:r1";
          created_at = 110;
        }
        ∷ [];
  };
  dlq = [];
  ingress =
      (
        1,
        field (codes "request_id") (str (codes "r1")) (
            field (codes "room_id") (number 1) (
              field (codes "user_id") (number 7) (
                field (codes "replay_count") (number 1) (
                  field (codes "replayed_at") (str (codes "2026-01-01T12:00:00+00:00")) (
                    field (codes "retry_count") (number 0)
                      (field (codes "next_retry_at") null end)))))),
      )
      ∷ [];
}

replay_works :
    replay_ingress_dlq_event no_repr 3 recent (manual (codes "t1")) (codes "r1") 7 world
    ≡ (done replayed, after_replay)
unfolding replay_ingress_dlq_event
replay_works = refl

later_claim :
    claim_dlq_replay (codes "r1") 0 (codes "t3") 500 after_replay.database
    ≡ ok (published, after_replay.database)
unfolding claim_dlq_replay
later_claim = refl

-- The automatic replayer asks in between.
later_steps : LaterSteps after_replay.database after_replay.database
later_steps = next (claims (codes "r1") 0 (codes "t3") 500 tt later_claim) stop

replay_ingress_dlq_event-once_example :
    IsRefused after_replay
      (replay_ingress_dlq_event no_repr 3 recent (manual (codes "t2")) (codes "r1") 7 after_replay)
replay_ingress_dlq_event-once_example =
    replay_ingress_dlq_event-once no_repr 3 recent (manual (codes "t1")) (manual (codes "t2"))
      (codes "r1") 7 world after_replay after_replay replayed replay_works refl later_steps

replay_ingress_dlq_event-IsOwnReplay_example :
    IsOwnReplay no_repr 3 recent
      (codes "r1")
      7
      (manual (codes "t1"))
      world
      (replay_ingress_dlq_event no_repr 3 recent (manual (codes "t1")) (codes "r1") 7 world)
replay_ingress_dlq_event-IsOwnReplay_example =
    replay_ingress_dlq_event-IsOwnReplay no_repr 3 recent (manual (codes "t1")) (codes "r1") 7 world

abbrev dead : Fields
dead =
    field (codes "request_id") (str (codes "r1"))
      (field (codes "room_id") (number 1) (field (codes "user_id") (number 7) end))

abbrev to_send : Candidate
to_send = record { job = dead; request_id = codes "r1"; room_id = 1; replay_count = 0 }

payload_works : replay_payload 3 (summarize_dlq_item no_repr 3 letter) ≡ done to_send
unfolding replay_payload summarize_dlq_item printed_id
payload_works = refl

replay_payload-IsCandidate_example :
    candidate 3 (obj dead) ≡ some (record to_send { job = with_room_id dead })
replay_payload-IsCandidate_example =
    replay_payload-IsCandidate no_repr 3 letter dead to_send refl payload_works

item_works :
    replay_item 3 (manual (codes "t1")) (summarize_dlq_item no_repr 3 letter) world
    ≡ (done replayed, after_replay)
unfolding replay_item summarize_dlq_item
item_works = refl

replay_item-IsExclusive_example :
    IsSkipped after_replay (replay_one (λ s. none) 3 (manual (codes "t2")) (obj dead) after_replay)
replay_item-IsExclusive_example =
    replay_item-IsExclusive 3 no_repr letter (λ s. none) (manual (codes "t1")) (manual (codes "t2"))
      dead world after_replay after_replay replayed refl item_works refl later_steps
