-- ===== src/Worker/Batch/Steps.antt =====
-- One record of a batch: what its handler and its commit do to the offsets that are followed.
use cloud_portfolio.Prelude.{
  ℕ, ◌≤◌, ◌<◌, ◌≡◌, ◌≢◌, refl, Bool, true, false, Option, none, some, ◌∷◌, ◌==◌, ==_iff,
  if◌then◌else◌, ◌⊎◌, inl, inr, arith,
}
use cloud_portfolio.Errors.{Error, Result, ok, err}
use cloud_portfolio.Worker.Handle.{Outcome}
use cloud_portfolio.Worker.Batch.{
  Message, Reply, accepted, declined, unanswered, Calls, Progress, assign, has_failed, was_handled,
  fail_with, commit_with, commit_record, count_record, after_handler,
}

assign_same : (f : ℕ → ℕ) (p n : ℕ) → assign f p n p ≡ n
unfolding assign
assign_same f p n = ground arith

assign_other : (f : ℕ → ℕ) (p n q : ℕ) → (p == q) ≡ false → assign f p n q ≡ f q
unfolding assign
assign_other f p n q h = ground arith

module _ {ℓ} {S : Type ℓ} (q o : ℕ) where
  -- What holds before the record at offset `o` of the partition `q` is visited.
  unfoldable pub Ahead : Progress S → Type 0
  Ahead p = (p.committed q ≤ o) × ((has_failed q p.failed ≡ false) ⊎ (p.position q ≤ o))

  -- The partition has failed at the record or before it.
  unfoldable pub Held : Progress S → Type 0
  Held p = (has_failed q p.failed ≡ true) × (p.position q ≤ o) × (p.committed q ≤ o)

  -- What holds after it.
  unfoldable pub Behind : Progress S → Type 0
  unfolding Held
  Behind p = (was_handled q o p.handled ≡ true) ⊎ Held p

  -- What an error that ends the batch leaves.
  unfoldable pub Stopped : Progress S → Type 0
  Stopped p = (was_handled q o p.handled ≡ true) ⊎ (p.committed q ≤ o)

  -- By the result of a call, what holds of a record that is ahead, or behind.
  unfoldable pub AfterAhead : Result (Unit {0}) × Progress S → Type 0
  unfolding Ahead Stopped
  AfterAhead (ok u, p) = Ahead p
  AfterAhead (err e, p) = Stopped p

  unfoldable pub AfterBehind : Result (Unit {0}) × Progress S → Type 0
  unfolding Behind Stopped
  AfterBehind (ok u, p) = Behind p
  AfterBehind (err e, p) = Stopped p

-- A record of another partition, or one before `o`.
abbrev pub Before {κ} : {V : Type κ} → ℕ → ℕ → Message V → Type 0
Before q o m = (m.partition ≢ q) ⊎ (m.offset < o)

module _ {ℓ} {A : Type ℓ} where
  pub if-result :
      (P : A → Type 0) (b : Bool) (x y : A)
      → (b ≡ true → P x)
      → (b ≡ false → P y)
      → P (if b then x else y)
  if-result P true x y hx hy = hx refl
  if-result P false x y hx hy = hy refl

module _ {ℓ κ} {S : Type ℓ} {V : Type κ} (q o : ℕ) where
  pub fail-Ahead :
      (seek : Option Error) (m : Message V) (p : Progress S)
      → Before q o m
      → Ahead q o p
      → AfterAhead q o (fail_with seek m p)
  unfolding Ahead Stopped AfterAhead fail_with assign
  fail-Ahead (some e) m p b h = inr h.0
  fail-Ahead none m p (inr b) h = (h.0, ground (arith, h.1))
  fail-Ahead none m p (inl b) h =
      (h.0, ground (arith, h.1, ==_iff q m.partition, ==_iff m.partition q, b))

  pub commit-committed :
      (m : Message V) (p : Progress S)
      → Before q o m
      → p.committed q ≤ o
      → (commit_record m p).committed q ≤ o
  unfolding commit_record assign
  commit-committed m p (inr b) h = ground arith
  commit-committed m p (inl b) h = ground (arith, ==_iff q m.partition, b)

  commit-Ahead :
      (reply : Reply) (seek : Option Error) (m : Message V) (p : Progress S)
      → Before q o m
      → Ahead q o p
      → AfterAhead q o (commit_with reply seek m p)
  unfolding AfterAhead Ahead commit_with count_record commit_record
  commit-Ahead accepted seek m p b h = (commit-committed m p b h.0, h.1)
  commit-Ahead (declined e) seek m p b h = fail-Ahead seek m p b h
  commit-Ahead (unanswered e) seek m p b h =
      fail-Ahead seek m (commit_record m p) b (commit-committed m p b h.0, h.1)

  pub after_handler-Ahead :
      (calls : Calls) (m : Message V) (p : Progress S) (r : Result Outcome)
      → Before q o m
      → Ahead q o p
      → AfterAhead q o (after_handler calls m p r)
  unfolding Ahead after_handler
  after_handler-Ahead calls m p (err e) b h = fail-Ahead calls.seek m p b h
  after_handler-Ahead calls m p (ok outcome) b h =
      commit-Ahead calls.commit calls.seek m
        (record p { handled = (m.partition, m.offset) ∷ p.handled }) b h

  -- Once handled, a record stays so.
  pub fail-handled :
      (seek : Option Error) (m : Message V) (p : Progress S)
      → was_handled q o p.handled ≡ true
      → AfterBehind q o (fail_with seek m p)
  unfolding AfterBehind Behind Stopped fail_with
  fail-handled (some e) m p h = inl h
  fail-handled none m p h = inl h

  commit-handled :
      (reply : Reply) (seek : Option Error) (m : Message V) (p : Progress S)
      → was_handled q o p.handled ≡ true
      → AfterBehind q o (commit_with reply seek m p)
  unfolding AfterBehind Behind commit_with count_record commit_record
  commit-handled accepted seek m p h = inl h
  commit-handled (declined e) seek m p h = fail-handled seek m p h
  commit-handled (unanswered e) seek m p h = fail-handled seek m (commit_record m p) h

  pub after_handler-handled :
      (calls : Calls) (m : Message V) (p : Progress S) (r : Result Outcome)
      → was_handled q o p.handled ≡ true
      → AfterBehind q o (after_handler calls m p r)
  unfolding after_handler
  after_handler-handled calls m p (err e) h = fail-handled calls.seek m p h
  after_handler-handled calls m p (ok outcome) h =
      commit-handled calls.commit calls.seek m
        (record p { handled = (m.partition, m.offset) ∷ p.handled }) (ground (arith, h))

  -- A record of another partition leaves one that has failed as it is.
  pub fail-Held :
      (seek : Option Error) (m : Message V) (p : Progress S)
      → m.partition ≢ q
      → Held q o p
      → AfterBehind q o (fail_with seek m p)
  unfolding AfterBehind Behind Held Stopped fail_with assign
  fail-Held (some e) m p b h = inr h.2
  fail-Held none m p b h =
      inr (ground (arith, h), ground (arith, ==_iff q m.partition, b, h.1), h.2)

  commit-Held :
      (reply : Reply) (seek : Option Error) (m : Message V) (p : Progress S)
      → m.partition ≢ q
      → Held q o p
      → AfterBehind q o (commit_with reply seek m p)
  unfolding AfterBehind Behind commit_with count_record Held
  commit-Held accepted seek m p b h = inr (h.0, h.1, commit-committed m p (inl b) h.2)
  commit-Held (declined e) seek m p b h = fail-Held seek m p b h
  commit-Held (unanswered e) seek m p b h =
      fail-Held seek m (commit_record m p) b (h.0, h.1, commit-committed m p (inl b) h.2)

  pub after_handler-Held :
      (calls : Calls) (m : Message V) (p : Progress S) (r : Result Outcome)
      → m.partition ≢ q
      → Held q o p
      → AfterBehind q o (after_handler calls m p r)
  unfolding after_handler Held
  after_handler-Held calls m p (err e) b h = fail-Held calls.seek m p b h
  after_handler-Held calls m p (ok outcome) b h =
      commit-Held calls.commit calls.seek m
        (record p { handled = (m.partition, m.offset) ∷ p.handled }) b h

-- The record itself, where its partition has not failed.
pub fail-own {ℓ κ} :
    {S : Type ℓ} {V : Type κ} (seek : Option Error) (m : Message V) (p : Progress S)
    → p.committed m.partition ≤ m.offset
    → AfterBehind m.partition m.offset (fail_with seek m p)
unfolding AfterBehind Behind Held Stopped fail_with
fail-own (some e) m p h = inr h
fail-own none m p h =
    inr (ground arith, rw (assign_same p.position m.partition m.offset) (omega arith), h)

pub after_handler-own {ℓ κ} :
    {S : Type ℓ} {V : Type κ} (calls : Calls) (m : Message V) (p : Progress S) (r : Result Outcome)
    → p.committed m.partition ≤ m.offset
    → AfterBehind m.partition m.offset (after_handler calls m p r)
unfolding after_handler
after_handler-own calls m p (err e) h = fail-own calls.seek m p h
after_handler-own calls m p (ok outcome) h =
    commit-handled m.partition m.offset calls.commit calls.seek m
      (record p { handled = (m.partition, m.offset) ∷ p.handled }) (ground arith)
