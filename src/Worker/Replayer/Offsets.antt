-- ===== src/Worker/Replayer/Offsets.antt =====
-- The offsets of a batch of the DLQ replayer.
use cloud_portfolio.Prelude.{
  ℕ, ◌≡◌, ◌≤◌, refl, Bool, true, false, Option, List, [], ◌∷◌, ◌++◌, All, Text, inl, inr, ◌⊎◌,
  arith, if-result,
}
use cloud_portfolio.Errors.{Result, ok, err}
use cloud_portfolio.Json.{Value}
use cloud_portfolio.Worker.Batch.{Message, Calls, Progress, has_failed, was_handled, flatten}
use cloud_portfolio.Worker.Batch.Steps.{
  Ahead, Held, Behind, Stopped, AfterAhead, AfterBehind, Before,
}
use cloud_portfolio.Worker.Replayer.{Replay, replay_one}
use cloud_portfolio.Worker.Replayer.Batch.{
  ReplayCounts, replay_letter, visit_letter, replay_letters, counted_batch, process_replay_batch,
}
use cloud_portfolio.Worker.Replayer.Steps.{
  after_replay-Ahead, after_replay-handled, after_replay-Held, after_replay-own, next-Ahead,
  next-Behind,
}

-- What a batch has done with the dead letter at offset `o` of the partition `q`, by how it ends.
abbrev pub IsAccountedFor : ℕ → ℕ → Result ℕ × Progress ReplayCounts → Type 0
IsAccountedFor q o (ok moved, p) =
    (was_handled q o p.handled ≡ true)
    ⊎ ((has_failed q p.failed ≡ true) × (p.position q ≤ o) × (p.committed q ≤ o))
IsAccountedFor q o (err e, p) = (was_handled q o p.handled ≡ true) ⊎ (p.committed q ≤ o)

AfterBehind-IsAccountedFor :
    (q o : ℕ) (r : Result (Unit {0}) × Progress ReplayCounts)
    → AfterBehind q o r
    → IsAccountedFor q o (counted_batch r)
unfolding AfterBehind Behind Held Stopped counted_batch
AfterBehind-IsAccountedFor q o (ok u, p) h = h
AfterBehind-IsAccountedFor q o (err e, p) h = h

module _ (loads : Text → Option Value) (max_count : ℕ) (replays : Message Value → Replay)
    (calls : Message Value → Calls) where
  -- The world after the replay of a letter, and its result.
  replayed_to : Message Value → Progress ReplayCounts → Progress ReplayCounts
  replayed_to m p = record p {
    world = record p.world {
      world = (replay_one loads max_count (replays m) m.value p.world.world).1;
    };
  }

  visit-Ahead :
      (q o : ℕ) (m : Message Value) (p : Progress ReplayCounts)
      → Before q o m
      → Ahead q o p
      → AfterAhead q o (visit_letter loads max_count replays calls m p)
  unfolding visit_letter replay_letter AfterAhead replayed_to
  visit-Ahead q o m p b h =
      if-result (AfterAhead q o) (has_failed m.partition p.failed) _ _ (λ e. h)
        (λ e.
          after_replay-Ahead q o (calls m) m (replayed_to m p)
            (replay_one loads max_count (replays m) m.value p.world.world).0 b (unfold Ahead in h))

  visit-Behind :
      (q o : ℕ) (m : Message Value) (p : Progress ReplayCounts)
      → Behind q o p
      → AfterBehind q o (visit_letter loads max_count replays calls m p)
  unfolding visit_letter replay_letter AfterBehind Behind Held replayed_to
  visit-Behind q o m p (inl h) =
      if-result (AfterBehind q o) (has_failed m.partition p.failed) _ _ (λ e. inl h)
        (λ e.
          after_replay-handled q o (calls m) m (replayed_to m p)
            (replay_one loads max_count (replays m) m.value p.world.world).0 h)
  visit-Behind q o m p (inr h) =
      if-result (AfterBehind q o) (has_failed m.partition p.failed) _ _ (λ e. inr h)
        (λ e.
          after_replay-Held q o (calls m) m (replayed_to m p)
            (replay_one loads max_count (replays m) m.value p.world.world).0 (λ same. cc) h)

  visit-own :
      (m : Message Value) (p : Progress ReplayCounts)
      → Ahead m.partition m.offset p
      → AfterBehind m.partition m.offset (visit_letter loads max_count replays calls m p)
  unfolding visit_letter replay_letter AfterBehind Behind Held Ahead replayed_to
  visit-own m p h =
      if-result (AfterBehind m.partition m.offset) (has_failed m.partition p.failed) _ _
        (λ e. inr (e, ground (arith, h.1, e), h.0))
        (λ e.
          after_replay-own (calls m) m (replayed_to m p)
            (replay_one loads max_count (replays m) m.value p.world.world).0 h.0)

  letters-Behind :
      (q o : ℕ) (ms : List (Message Value)) (p : Progress ReplayCounts)
      → Behind q o p
      → AfterBehind q o (replay_letters loads max_count replays calls ms p)
  unfolding replay_letters
  letters-Behind q o [] p h = unfold AfterBehind in h
  letters-Behind q o (m ∷ ms) p h =
      next-Behind q o (visit_letter loads max_count replays calls m p)
        (replay_letters loads max_count replays calls ms) (visit-Behind q o m p h)
        (letters-Behind q o ms)

  letters-Ahead :
      (before : List (Message Value)) (m : Message Value) (after : List (Message Value))
      (p : Progress ReplayCounts)
      → All (Before m.partition m.offset) before
      → Ahead m.partition m.offset p
      → AfterBehind m.partition m.offset
          (replay_letters loads max_count replays calls (before ++ m ∷ after) p)
  unfolding replay_letters
  letters-Ahead [] m after p b h =
      next-Behind m.partition m.offset (visit_letter loads max_count replays calls m p)
        (replay_letters loads max_count replays calls after) (visit-own m p h)
        (letters-Behind m.partition m.offset after)
  letters-Ahead (x ∷ before) m after p b h =
      next-Ahead m.partition m.offset (visit_letter loads max_count replays calls x p)
        (replay_letters loads max_count replays calls (before ++ m ∷ after))
        (visit-Ahead m.partition m.offset x p b.0 h) (λ p'. letters-Ahead before m after p' b.1)

-- A dead letter whose offset is not committed yet, and before which the batch has only smaller offsets
-- of its partition, is not lost, whether or not the database answers, and whatever the replays and the
-- Kafka client do: after a batch that returns, `replay_one` has returned for it, or its partition has
-- failed and the consumer stands at the record or before it, with no offset committed past it; after
-- one that raises, `replay_one` has returned for it or no offset past it is committed.
pub process_replay_batch-IsAccountedFor :
    (loads : Text → Option Value) (max_count : ℕ) (answers : Bool)
    (replays : Message Value → Replay) (calls : Message Value → Calls)
    (records : List (List (Message Value))) (p : Progress ReplayCounts)
    (before : List (Message Value)) (m : Message Value) (after : List (Message Value))
    → flatten records ≡ before ++ m ∷ after
    → All (Before m.partition m.offset) before
    → p.committed m.partition ≤ m.offset
    → IsAccountedFor m.partition m.offset
        (process_replay_batch loads max_count replays calls answers records p)
unfolding process_replay_batch
process_replay_batch-IsAccountedFor loads max_count false replays calls records p before m after e b
      h =
    inr h
process_replay_batch-IsAccountedFor loads max_count true replays calls records p before m after e b
      h =
    AfterBehind-IsAccountedFor m.partition m.offset _ (
      rw e (
        letters-Ahead loads max_count replays calls before m after
          (record p { failed = []; world = record p.world { moved = 0 } }) b
          (unfold Ahead in (h, inl refl))))
