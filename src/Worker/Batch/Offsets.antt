-- ===== src/Worker/Batch/Offsets.antt =====
-- The offsets of a batch: none is committed before its record is handled, and none is lost.
use cloud_portfolio.Prelude.{
  ℕ, ◌≤◌, ◌≡◌, refl, true, List, [], ◌∷◌, ◌++◌, All, ◌⊎◌, inl, inr, arith,
}
use cloud_portfolio.Errors.{Result, ok, err}
use cloud_portfolio.Worker.Handle.{Outcome}
use cloud_portfolio.Worker.Batch.{
  Message, Calls, Progress, has_failed, was_handled, flatten, next_message, process_record,
  visit_record, process_messages, process_worker_batch,
}
use cloud_portfolio.Worker.Batch.Steps.{
  Ahead, Held, Behind, Stopped, AfterAhead, AfterBehind, Before, if-result, after_handler-Ahead,
  after_handler-handled, after_handler-Held, after_handler-own,
}

module _ {ℓ κ} {S : Type ℓ} {V : Type κ} (handler : Message V → S → Result Outcome × S)
    (calls : Message V → Calls) (q o : ℕ) where
  visit-Ahead :
      (m : Message V) (p : Progress S)
      → Before q o m
      → Ahead q o p
      → AfterAhead q o (visit_record handler calls m p)
  unfolding visit_record process_record AfterAhead
  visit-Ahead m p b h =
      if-result (AfterAhead q o) (has_failed m.partition p.failed) _ _ (λ e. h)
        (λ e.
          after_handler-Ahead q o (calls m) m (record p { world = (handler m p.world).1 })
            (handler m p.world).0 b (unfold Ahead in h))

  visit-Behind :
      (m : Message V) (p : Progress S)
      → Behind q o p
      → AfterBehind q o (visit_record handler calls m p)
  unfolding visit_record process_record AfterBehind Behind Held
  visit-Behind m p (inl h) =
      if-result (AfterBehind q o) (has_failed m.partition p.failed) _ _ (λ e. inl h)
        (λ e.
          after_handler-handled q o (calls m) m (record p { world = (handler m p.world).1 })
            (handler m p.world).0 h)
  visit-Behind m p (inr h) =
      if-result (AfterBehind q o) (has_failed m.partition p.failed) _ _ (λ e. inr h)
        (λ e.
          after_handler-Held q o (calls m) m (record p { world = (handler m p.world).1 })
            (handler m p.world).0 (λ same. cc) h)

  next-Behind :
      (r : Result (Unit {0}) × Progress S) (more : Progress S → Result (Unit {0}) × Progress S)
      → AfterBehind q o r
      → ((p' : Progress S) → Behind q o p' → AfterBehind q o (more p'))
      → AfterBehind q o (next_message handler calls r more)
  unfolding next_message AfterBehind
  next-Behind (ok u, p') more h k = k p' h
  next-Behind (err e, p') more h k = h

  messages-Behind :
      (ms : List (Message V)) (p : Progress S)
      → Behind q o p
      → AfterBehind q o (process_messages handler calls ms p)
  unfolding process_messages
  messages-Behind [] p h = unfold AfterBehind in h
  messages-Behind (m ∷ ms) p h =
      next-Behind (visit_record handler calls m p) (process_messages handler calls ms)
        (visit-Behind m p h) (messages-Behind ms)

module _ {ℓ κ} {S : Type ℓ} {V : Type κ} (handler : Message V → S → Result Outcome × S)
    (calls : Message V → Calls) where
  visit-own :
      (m : Message V) (p : Progress S)
      → Ahead m.partition m.offset p
      → AfterBehind m.partition m.offset (visit_record handler calls m p)
  unfolding visit_record process_record AfterBehind Behind Held Ahead
  visit-own m p h =
      if-result (AfterBehind m.partition m.offset) (has_failed m.partition p.failed) _ _
        (λ e. inr (e, ground (arith, h.1, e), h.0))
        (λ e.
          after_handler-own (calls m) m (record p { world = (handler m p.world).1 })
            (handler m p.world).0 h.0)

  next-Ahead :
      (q o : ℕ) (r : Result (Unit {0}) × Progress S)
      (more : Progress S → Result (Unit {0}) × Progress S)
      → AfterAhead q o r
      → ((p' : Progress S) → Ahead q o p' → AfterBehind q o (more p'))
      → AfterBehind q o (next_message handler calls r more)
  unfolding next_message AfterBehind AfterAhead
  next-Ahead q o (ok u, p') more h k = k p' h
  next-Ahead q o (err e, p') more h k = h

  messages-Ahead :
      (before : List (Message V)) (m : Message V) (after : List (Message V)) (p : Progress S)
      → All (Before m.partition m.offset) before
      → Ahead m.partition m.offset p
      → AfterBehind m.partition m.offset (process_messages handler calls (before ++ m ∷ after) p)
  unfolding process_messages
  messages-Ahead [] m after p b h =
      next-Behind handler calls m.partition m.offset (visit_record handler calls m p)
        (process_messages handler calls after) (visit-own m p h)
        (messages-Behind handler calls m.partition m.offset after)
  messages-Ahead (x ∷ before) m after p b h =
      next-Ahead m.partition m.offset (visit_record handler calls x p)
        (process_messages handler calls (before ++ m ∷ after))
        (visit-Ahead handler calls m.partition m.offset x p b.0 h)
        (λ p'. messages-Ahead before m after p' b.1)

-- What a batch has done with the record at offset `o` of the partition `q`, by how it ends.
abbrev pub IsAccountedFor {ℓ} : {S : Type ℓ} → ℕ → ℕ → Result (Unit {0}) × Progress S → Type 0
IsAccountedFor q o (ok u, p) =
    (was_handled q o p.handled ≡ true)
    ⊎ ((has_failed q p.failed ≡ true) × (p.position q ≤ o) × (p.committed q ≤ o))
IsAccountedFor q o (err e, p) = (was_handled q o p.handled ≡ true) ⊎ (p.committed q ≤ o)

AfterBehind-IsAccountedFor {ℓ} :
    {S : Type ℓ} (q o : ℕ) (r : Result (Unit {0}) × Progress S)
    → AfterBehind q o r
    → IsAccountedFor q o r
unfolding AfterBehind Behind Held Stopped
AfterBehind-IsAccountedFor q o (ok u, p) h = h
AfterBehind-IsAccountedFor q o (err e, p) h = h

-- A record whose offset is not committed yet, and before which the batch has only smaller offsets of
-- its partition, is not lost, whatever the handlers and the Kafka client do: after a batch that
-- returns, its handler has returned, or its partition has failed and the consumer stands at the
-- record or before it, with no offset committed past it; after one that raises, its handler has
-- returned or no offset past it is committed.
pub process_worker_batch-IsAccountedFor {ℓ κ} :
    {S : Type ℓ} {V : Type κ} (handler : Message V → S → Result Outcome × S)
    (calls : Message V → Calls) (records : List (List (Message V))) (p : Progress S)
    (before : List (Message V)) (m : Message V) (after : List (Message V))
    → flatten records ≡ before ++ m ∷ after
    → All (Before m.partition m.offset) before
    → p.committed m.partition ≤ m.offset
    → IsAccountedFor m.partition m.offset (process_worker_batch handler calls records p)
unfolding process_worker_batch
process_worker_batch-IsAccountedFor handler calls records p before m after e b h =
    AfterBehind-IsAccountedFor m.partition m.offset _ (
      rw e (
        messages-Ahead handler calls before m after (record p { failed = [] }) b
          (unfold Ahead in (h, inl refl))))
