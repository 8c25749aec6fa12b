-- ===== src/Worker/Replayer/Steps.antt =====
-- One dead letter of a batch: what its replay and its commit do to the offsets that are followed.
use cloud_portfolio.Prelude.{
  ℕ, ◌≡◌, ◌≢◌, ◌≤◌, Bool, true, false, Option, none, some, ◌∷◌, inl, inr, arith, if-result,
}
use cloud_portfolio.Errors.{Error, Result, ok, err}
use cloud_portfolio.Json.{Value}
use cloud_portfolio.Worker.Batch.{
  Message, Reply, accepted, declined, unanswered, Calls, Progress, was_handled, fail_with,
  commit_record,
}
use cloud_portfolio.Worker.Batch.Steps.{
  Ahead, Held, Behind, Stopped, AfterAhead, AfterBehind, Before, fail-Ahead, commit-committed,
  fail-Held, fail-own,
}
use cloud_portfolio.Worker.Replayer.Batch.{
  ReplayCounts, is_claim_in_progress, claim_in_progress, replay_failed, excepted,
  commit_processed_record, count_moved, commit_replayed, after_replay, next_letter,
}

module _ (q o : ℕ) where
  excepted-Ahead :
      (e : Error) (seek : Option Error) (m : Message Value) (p : Progress ReplayCounts)
      → Before q o m
      → Ahead q o p
      → AfterAhead q o (excepted e seek m p)
  unfolding excepted claim_in_progress replay_failed AfterAhead Ahead Stopped fail_with
  excepted-Ahead e (some x) m p b h =
      if-result (AfterAhead q o) (is_claim_in_progress e) _ _ (λ c. fail-Ahead q o (some x) m p b h)
        (λ c. fail-Ahead q o (some x) m p b h)
  excepted-Ahead e none m p b h =
      if-result (AfterAhead q o) (is_claim_in_progress e) _ _ (λ c. fail-Ahead q o none m p b h)
        (λ c. fail-Ahead q o none m p b h)

  commit-Ahead :
      (reply : Reply) (seek : Option Error) (replayed : Bool) (m : Message Value)
      (p : Progress ReplayCounts)
      → Before q o m
      → Ahead q o p
      → AfterAhead q o (commit_replayed reply seek replayed m p)
  unfolding commit_replayed AfterAhead Ahead count_moved commit_processed_record commit_record
  commit-Ahead accepted seek true m p b h = (commit-committed q o m p b h.0, h.1)
  commit-Ahead accepted seek false m p b h = (commit-committed q o m p b h.0, h.1)
  commit-Ahead (declined e) seek replayed m p b h = excepted-Ahead e seek m p b h
  commit-Ahead (unanswered e) seek replayed m p b h =
      excepted-Ahead e seek m (commit_processed_record m p) b (commit-committed q o m p b h.0, h.1)

  pub after_replay-Ahead :
      (calls : Calls) (m : Message Value) (p : Progress ReplayCounts) (r : Result Bool)
      → Before q o m
      → Ahead q o p
      → AfterAhead q o (after_replay calls m p r)
  unfolding after_replay Ahead
  after_replay-Ahead calls m p (err e) b h = excepted-Ahead e calls.seek m p b h
  after_replay-Ahead calls m p (ok replayed) b h =
      commit-Ahead calls.commit calls.seek replayed m
        (record p { handled = (m.partition, m.offset) ∷ p.handled }) b h

  excepted-handled :
      (e : Error) (seek : Option Error) (m : Message Value) (p : Progress ReplayCounts)
      → was_handled q o p.handled ≡ true
      → AfterBehind q o (excepted e seek m p)
  unfolding excepted claim_in_progress replay_failed AfterBehind Behind Stopped
  excepted-handled e (some x) m p h =
      if-result (AfterBehind q o) (is_claim_in_progress e) _ _ (λ c. inl h) (λ c. inl h)
  excepted-handled e none m p h =
      if-result (AfterBehind q o) (is_claim_in_progress e) _ _ (λ c. inl h) (λ c. inl h)

  commit-handled :
      (reply : Reply) (seek : Option Error) (replayed : Bool) (m : Message Value)
      (p : Progress ReplayCounts)
      → was_handled q o p.handled ≡ true
      → AfterBehind q o (commit_replayed reply seek replayed m p)
  unfolding commit_replayed AfterBehind Behind count_moved commit_processed_record
  commit-handled accepted seek true m p h = inl h
  commit-handled accepted seek false m p h = inl h
  commit-handled (declined e) seek replayed m p h = excepted-handled e seek m p h
  commit-handled (unanswered e) seek replayed m p h =
      excepted-handled e seek m (commit_processed_record m p) h

  pub after_replay-handled :
      (calls : Calls) (m : Message Value) (p : Progress ReplayCounts) (r : Result Bool)
      → was_handled q o p.handled ≡ true
      → AfterBehind q o (after_replay calls m p r)
  unfolding after_replay
  after_replay-handled calls m p (err e) h = excepted-handled e calls.seek m p h
  after_replay-handled calls m p (ok replayed) h =
      commit-handled calls.commit calls.seek replayed m
        (record p { handled = (m.partition, m.offset) ∷ p.handled }) (ground (arith, h))

  excepted-Held :
      (e : Error) (seek : Option Error) (m : Message Value) (p : Progress ReplayCounts)
      → m.partition ≢ q
      → Held q o p
      → AfterBehind q o (excepted e seek m p)
  unfolding excepted claim_in_progress replay_failed AfterBehind Behind Held Stopped fail_with
  excepted-Held e (some x) m p b h =
      if-result (AfterBehind q o) (is_claim_in_progress e) _ _ (λ c. fail-Held q o (some x) m p b h)
        (λ c. fail-Held q o (some x) m p b h)
  excepted-Held e none m p b h =
      if-result (AfterBehind q o) (is_claim_in_progress e) _ _ (λ c. fail-Held q o none m p b h)
        (λ c. fail-Held q o none m p b h)

  commit-Held :
      (reply : Reply) (seek : Option Error) (replayed : Bool) (m : Message Value)
      (p : Progress ReplayCounts)
      → m.partition ≢ q
      → Held q o p
      → AfterBehind q o (commit_replayed reply seek replayed m p)
  unfolding commit_replayed AfterBehind Behind Held count_moved commit_processed_record
      commit_record
  commit-Held accepted seek true m p b h = inr (h.0, h.1, commit-committed q o m p (inl b) h.2)
  commit-Held accepted seek false m p b h = inr (h.0, h.1, commit-committed q o m p (inl b) h.2)
  commit-Held (declined e) seek replayed m p b h = excepted-Held e seek m p b h
  commit-Held (unanswered e) seek replayed m p b h =
      excepted-Held e seek m (commit_processed_record m p) b
        (h.0, h.1, commit-committed q o m p (inl b) h.2)

  pub after_replay-Held :
      (calls : Calls) (m : Message Value) (p : Progress ReplayCounts) (r : Result Bool)
      → m.partition ≢ q
      → Held q o p
      → AfterBehind q o (after_replay calls m p r)
  unfolding after_replay Held
  after_replay-Held calls m p (err e) b h = excepted-Held e calls.seek m p b h
  after_replay-Held calls m p (ok replayed) b h =
      commit-Held calls.commit calls.seek replayed m
        (record p { handled = (m.partition, m.offset) ∷ p.handled }) b h

  pub next-Behind :
      (r : Result (Unit {0}) × Progress ReplayCounts)
      (more : Progress ReplayCounts → Result (Unit {0}) × Progress ReplayCounts)
      → AfterBehind q o r
      → ((p' : Progress ReplayCounts) → Behind q o p' → AfterBehind q o (more p'))
      → AfterBehind q o (next_letter r more)
  unfolding next_letter AfterBehind
  next-Behind (ok u, p') more h k = k p' h
  next-Behind (err e, p') more h k = h

  pub next-Ahead :
      (r : Result (Unit {0}) × Progress ReplayCounts)
      (more : Progress ReplayCounts → Result (Unit {0}) × Progress ReplayCounts)
      → AfterAhead q o r
      → ((p' : Progress ReplayCounts) → Ahead q o p' → AfterBehind q o (more p'))
      → AfterBehind q o (next_letter r more)
  unfolding next_letter AfterBehind AfterAhead
  next-Ahead (ok u, p') more h k = k p' h
  next-Ahead (err e, p') more h k = h

excepted-own :
    (e : Error) (seek : Option Error) (m : Message Value) (p : Progress ReplayCounts)
    → p.committed m.partition ≤ m.offset
    → AfterBehind m.partition m.offset (excepted e seek m p)
unfolding excepted claim_in_progress replay_failed AfterBehind Behind Held Stopped fail_with
excepted-own e (some x) m p h =
    if-result (AfterBehind m.partition m.offset) (is_claim_in_progress e) _ _
      (λ c. fail-own (some x) m p h) (λ c. fail-own (some x) m p h)
excepted-own e none m p h =
    if-result (AfterBehind m.partition m.offset) (is_claim_in_progress e) _ _
      (λ c. fail-own none m p h) (λ c. fail-own none m p h)

pub after_replay-own :
    (calls : Calls) (m : Message Value) (p : Progress ReplayCounts) (r : Result Bool)
    → p.committed m.partition ≤ m.offset
    → AfterBehind m.partition m.offset (after_replay calls m p r)
unfolding after_replay
after_replay-own calls m p (err e) h = excepted-own e calls.seek m p h
after_replay-own calls m p (ok replayed) h =
    commit-handled m.partition m.offset calls.commit calls.seek replayed m
      (record p { handled = (m.partition, m.offset) ∷ p.handled }) (ground arith)
