-- ===== src/Api/Dlq/Replays.antt =====
-- What `replay_ingress_dlq_event` does with the dead letters of its caller.
use cloud_portfolio.Prelude.{
  ℕ, ◌≡◌, refl, ap, sym, ◌∙◌, subst, true, [], ◌∷◌, Bool-cases, if-true, if-false, ==_iff, Option,
  none, some, List, map, Text, text_eq_iff, ◌⊎◌, inl, inr, arith,
}
use cloud_portfolio.Errors.{Result, ok, err}
use cloud_portfolio.Json.{Value}
use cloud_portfolio.Database.Find.{find, find-passes}
use cloud_portfolio.Database.Session.{healthy}
use cloud_portfolio.Store.Claim.History.{LaterSteps}
use cloud_portfolio.Worker.World.{World}
use cloud_portfolio.Worker.Outbox.Relayed.{IsIn}
use cloud_portfolio.Worker.Replayer.{Replay}
use cloud_portfolio.Api.Answer.{Answer, done, failed, Failure, ◌>>=◌}
use cloud_portfolio.Api.Dlq.{
  names_user, names_request, is_item, list_recent_dlq_messages, find_dlq_item_by_request_id,
  found_replay, replay_ingress_dlq_event,
}
use cloud_portfolio.Api.Dlq.Item.{Letter, DlqItem, summarize_dlq_item}
use cloud_portfolio.Api.Dlq.Manual.{Replayed, replay_item}
use cloud_portfolio.Api.Dlq.Manual.Sent.{IsReplayed, replay_item-IsReplayed}
use cloud_portfolio.Api.Dlq.Manual.Final.{IsRefused}
use cloud_portfolio.Api.Dlq.Manual.Once.{replay_item-once}

names_request-eq :
    (request_id : Text) (o : Option Text) → names_request request_id o ≡ true → o ≡ some request_id
names_request-eq request_id none h = cc
names_request-eq request_id (some s) h = ap some ((text_eq_iff s request_id).0 h)

names_user-eq : (user_id : ℕ) (o : Option ℕ) → names_user user_id o ≡ true → o ≡ some user_id
names_user-eq user_id none h = cc
names_user-eq user_id (some n) h = ap some ((==_iff n user_id).0 h)

is_item-IsOwn :
    (request_id : Text) (user_id : ℕ) (item : DlqItem)
    → is_item request_id user_id item ≡ true
    → (item.request_id ≡ some request_id) × (item.user_id ≡ some user_id)
unfolding is_item
is_item-IsOwn request_id user_id item h = (
  names_request-eq request_id item.request_id (ground (arith, h)),
  names_user-eq user_id item.user_id (ground (arith, h)),
)

-- A letter among those that were read whose item names the request and the user.
pub record IsOwn (repr : Value → Option Text) (max_count : ℕ) (request_id : Text) (user_id : ℕ)
    (letters : List Letter) (letter : Letter) : Type 0 where
  pub position : IsIn letter letters
  pub request : (summarize_dlq_item repr max_count letter).request_id ≡ some request_id
  pub user : (summarize_dlq_item repr max_count letter).user_id ≡ some user_id

module _ (repr : Value → Option Text) (max_count : ℕ) (recent : ℕ → Result (List Letter))
    (request_id : Text) (user_id : ℕ) where
  find-letter :
      (letters : List Letter) (item : DlqItem)
      → find (is_item request_id user_id) (map (summarize_dlq_item repr max_count) letters)
        ≡ some item
      → (letter : Letter) × IsIn letter letters × (item ≡ summarize_dlq_item repr max_count letter)
  unfolding find
  find-letter [] item h = cc
  find-letter (y ∷ ys) item h =
      elim (Bool-cases (is_item request_id user_id (summarize_dlq_item repr max_count y))) [
        | inl passes ↦ (y, inl refl, sym (some_inj (sym (if-true _ _ _ passes) ∙ h)))
        | inr fails ↦
            let (letter, place, same) = find-letter ys item (sym (if-false _ _ _ fails) ∙ h) in
            (letter, inr place, same)
      ]
    where
      some_inj : {a b : DlqItem} → some a ≡ some b → a ≡ b
      some_inj e = cc

  -- What the call is about: a letter of the caller among the ones that were read, or nothing.
  abbrev IsFound : Result (List Letter) → Answer (Option DlqItem) → Type 0
  IsFound (ok letters) (done (some item)) =
      (letter : Letter) × IsOwn repr max_count request_id user_id letters letter
      × (item ≡ summarize_dlq_item repr max_count letter)
  IsFound (err e) (done (some item)) = ⊥
  IsFound _ _ = Unit

  find-IsFound :
      (letters : List Letter) (o : Option DlqItem)
      → find (is_item request_id user_id) (map (summarize_dlq_item repr max_count) letters) ≡ o
      → IsFound (ok letters) (done o)
  find-IsFound letters none h = tt
  find-IsFound letters (some item) h =
      let (letter, place, same) = find-letter letters item h in
      let own =
        is_item-IsOwn request_id user_id item (find-passes (is_item request_id user_id) _ item h) in
      (
        letter,
        record {
          position = place;
          request = subst (λ (i : DlqItem). i.request_id ≡ some request_id) same own.0;
          user = subst (λ (i : DlqItem). i.user_id ≡ some user_id) same own.1;
        },
        same,
      )

  listed-IsFound :
      (r : Result (List Letter))
      → IsFound r (
          list_recent_dlq_messages r >>= λ letters.
          done
            (find (is_item request_id user_id) (map (summarize_dlq_item repr max_count) letters)))
  unfolding list_recent_dlq_messages
  listed-IsFound (ok letters) = find-IsFound letters _ refl
  listed-IsFound (err e) = tt

  -- Either one of the caller's letters that were read is replayed, as the item that it makes; or
  -- nothing is done.
  abbrev pub IsOwnReplay : Replay → World → Answer Replayed × World → Type 0
  IsOwnReplay r w p =
      ((letters : List Letter) × (letter : Letter) × (recent 5000 ≡ ok letters)
        × IsOwn repr max_count request_id user_id letters letter
        × (p ≡ replay_item max_count r (summarize_dlq_item repr max_count letter) w)
        × IsReplayed max_count w p)
      ⊎ ((f : Failure) × (p ≡ (failed f, w)))

  found_replay-IsOwnReplay :
      (r : Replay) (w : World) (read : Result (List Letter)) (a : Answer (Option DlqItem))
      → recent 5000 ≡ read
      → IsFound read a
      → IsOwnReplay r w (found_replay repr max_count recent r a w)
  unfolding found_replay
  found_replay-IsOwnReplay r w read (failed f) e h = inr (f, refl)
  found_replay-IsOwnReplay r w read (done none) e h = inr (_, refl)
  found_replay-IsOwnReplay r w (err x) (done (some item)) e h = absurd h
  found_replay-IsOwnReplay r w (ok letters) (done (some item)) e h =
      let (letter, own, same) = h in
      inl (
        letters,
        letter,
        e,
        own,
        ap (λ i. replay_item max_count r i w) same,
        replay_item-IsReplayed max_count w r item,
      )

  found_replay-once :
      (first second : Replay) (w w' later : World) (x : Replayed) (a : Answer (Option DlqItem))
      → found_replay repr max_count recent first a w ≡ (done x, w')
      → first.mark_fault ≡ healthy
      → LaterSteps w'.database later.database
      → IsRefused later (found_replay repr max_count recent second a later)
  unfolding found_replay
  found_replay-once first second w w' later x (failed f) h quiet steps = refl
  found_replay-once first second w w' later x (done none) h quiet steps = refl
  found_replay-once first second w w' later x (done (some item)) h quiet steps =
      replay_item-once max_count first second item w w' later x h quiet steps

-- However the read of the DLQ, the claim and the send fare: either nothing is done and the answer is an
-- error, or the outcome is that of the replay of a letter which is among those read and names the request
-- and the caller. If that is answered with a replay, one record has been sent to the stream that the
-- answer names, whose count is that of the answer and within the limit; any other answer has sent
-- nothing, or is the 503 of a send that failed, after which at most one such record may be in the topic.
pub replay_ingress_dlq_event-IsOwnReplay :
    (repr : Value → Option Text) (max_count : ℕ) (recent : ℕ → Result (List Letter)) (r : Replay)
    (request_id : Text) (user_id : ℕ) (w : World)
    → IsOwnReplay repr max_count recent request_id user_id r w
        (replay_ingress_dlq_event repr max_count recent r request_id user_id w)
unfolding replay_ingress_dlq_event find_dlq_item_by_request_id
replay_ingress_dlq_event-IsOwnReplay repr max_count recent r request_id user_id w =
    found_replay-IsOwnReplay repr max_count recent request_id user_id r w (recent 5000)
      (find_dlq_item_by_request_id repr max_count recent request_id user_id) refl
      (listed-IsFound repr max_count recent request_id user_id (recent 5000))

-- Let `replay_ingress_dlq_event` have answered with a replay, its mark have been stored, and nothing have
-- come in between its claim and its mark. After any transactions but the reset of the demo, a call for
-- the request by the same user, where the DLQ reads the same, is not answered with a replay and sends
-- nothing, however its claim, send and mark fare.
pub replay_ingress_dlq_event-once :
    (repr : Value → Option Text) (max_count : ℕ) (recent : ℕ → Result (List Letter))
    (first second : Replay) (request_id : Text) (user_id : ℕ) (w w' later : World) (x : Replayed)
    → replay_ingress_dlq_event repr max_count recent first request_id user_id w ≡ (done x, w')
    → first.mark_fault ≡ healthy
    → LaterSteps w'.database later.database
    → IsRefused later
        (replay_ingress_dlq_event repr max_count recent second request_id user_id later)
unfolding replay_ingress_dlq_event
replay_ingress_dlq_event-once repr max_count recent first second request_id user_id w w' later x h
      quiet steps =
    found_replay-once repr max_count recent request_id user_id first second w w' later x
      (find_dlq_item_by_request_id repr max_count recent request_id user_id) h quiet steps
