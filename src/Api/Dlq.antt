-- ===== src/Api/Dlq.antt =====
-- portfolio/api.py: the list of dead letters, its summary, and the replay of one by its owner. What
-- `list_recent_topic_messages` returns for a limit, or how it fails, is an argument.
pub mod Item
pub mod Counted
pub mod Manual
pub mod Replays
use cloud_portfolio.Prelude.{
  ℕ, ◌*◌, min, max, Bool, true, false, Option, none, some, List, [], ◌∷◌, map, length, take, ◌==◌,
  if◌then◌else◌, Text, codes, text_eq, ◌&&◌,
}
use cloud_portfolio.Errors.{Result, ok, err}
use cloud_portfolio.Json.{Value}
use cloud_portfolio.Database.Find.{find}
use cloud_portfolio.Worker.World.{World}
use cloud_portfolio.Worker.Replayer.{Replay}
use cloud_portfolio.Api.Answer.{Answer, done, failed, http, ◌>>=◌}
use cloud_portfolio.Api.Dlq.Item.{Letter, DlqItem, summarize_dlq_item}
use cloud_portfolio.Api.Dlq.Counted.{Summary, summarize_dlq_items}
use cloud_portfolio.Api.Dlq.Manual.{Replayed, replay_item}

-- `_list_recent_dlq_messages`
list_recent_dlq_messages : Result (List Letter) → Answer (List Letter)
list_recent_dlq_messages (ok letters) = done letters
list_recent_dlq_messages (err e) = failed (http 503 (codes "Kafka DLQ unavailable"))

abbrev names_user : ℕ → Option ℕ → Bool
names_user user_id none = false
names_user user_id (some n) = n == user_id

abbrev names_request : Text → Option Text → Bool
names_request request_id none = false
names_request request_id (some s) = text_eq s request_id

is_item : Text → ℕ → DlqItem → Bool
unfolding text_eq
is_item request_id user_id item =
    names_request request_id item.request_id && names_user user_id item.user_id

-- The items of one user, in their order.
items_of : ℕ → List DlqItem → List DlqItem
items_of user_id [] = []
items_of user_id (item ∷ items) =
    let rest = items_of user_id items in
    if names_user user_id item.user_id then item ∷ rest else rest

scan_limit : ℕ → ℕ
scan_limit limit = min 5000 (max limit (limit * 10))

pub record DlqList : Type 0 where
  pub count : ℕ
  pub max_replay_count : ℕ
  pub items : List DlqItem

pub record DlqSummary : Type 0 where
  pub limit : ℕ
  pub sample_limit : ℕ
  pub max_replay_count : ℕ
  pub summary : Summary

module _ (repr : Value → Option Text) (max_count : ℕ) (recent : ℕ → Result (List Letter)) where
  -- `_find_dlq_item_by_request_id`
  find_dlq_item_by_request_id : Text → ℕ → Answer (Option DlqItem)
  unfolding list_recent_dlq_messages summarize_dlq_item is_item find
  find_dlq_item_by_request_id request_id user_id =
      list_recent_dlq_messages (recent 5000) >>= λ letters.
      done (find (is_item request_id user_id) (map (summarize_dlq_item repr max_count) letters))

  -- What both lists take of the recent letters.
  recent_items : ℕ → ℕ → Answer (List DlqItem)
  unfolding list_recent_dlq_messages summarize_dlq_item items_of scan_limit
  recent_items user_id limit = list_recent_dlq_messages (recent (scan_limit limit)) >>= λ letters.
      done (take limit (items_of user_id (map (summarize_dlq_item repr max_count) letters)))

  -- `get_ingress_dlq`
  unfoldable pub get_ingress_dlq : ℕ → ℕ → Answer DlqList
  unfolding recent_items
  get_ingress_dlq user_id limit = recent_items user_id limit >>= λ items.
      done (record { count = length items; max_replay_count = max_count; items = items })

  -- `get_ingress_dlq_summary`; `age` gives the age of an item in seconds.
  unfoldable pub get_ingress_dlq_summary : (DlqItem → Option ℕ) → ℕ → ℕ → ℕ → Answer DlqSummary
  unfolding recent_items summarize_dlq_items
  get_ingress_dlq_summary age user_id limit sample_limit = recent_items user_id limit >>= λ items.
      done (record {
        limit = limit;
        sample_limit = sample_limit;
        max_replay_count = max_count;
        summary = summarize_dlq_items age sample_limit items;
      })

  found_replay : Replay → Answer (Option DlqItem) → World → Answer Replayed × World
  unfolding replay_item
  found_replay r (failed f) w = (failed f, w)
  found_replay r (done none) w = (failed (http 404 (codes "DLQ event not found")), w)
  found_replay r (done (some item)) w = replay_item max_count r item w

  -- `replay_ingress_dlq_event`
  unfoldable pub replay_ingress_dlq_event : Replay → Text → ℕ → World → Answer Replayed × World
  unfolding find_dlq_item_by_request_id found_replay
  replay_ingress_dlq_event r request_id user_id w =
      found_replay r (find_dlq_item_by_request_id request_id user_id) w
