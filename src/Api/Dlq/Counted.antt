-- ===== src/Api/Dlq/Counted.antt =====
-- portfolio/api.py: `_summarize_dlq_items`. The age of an item, which the code computes from
-- timestamps in floating point, is an argument.
pub mod Tally
pub mod Sums
use cloud_portfolio.Prelude.{
  ℕ, zero, suc, ◌+◌, max, Bool, true, false, ◌&&◌, ◌||◌, Option, none, some, List, [], ◌∷◌, length,
  take, ltb, ◌==◌, if◌then◌else◌, Text, codes, text_eq, is_empty,
}
use cloud_portfolio.Json.Checks.{number}
use cloud_portfolio.Api.Dlq.Item.{DlqItem, safe_optional_positive_int}

-- A `Counter`: each key once, with its count.
unfoldable pub count_key {ℓ} : {K : Type ℓ} → (K → K → Bool) → K → List (K × ℕ) → List (K × ℕ)
count_key same key [] = (key, 1) ∷ []
count_key same key ((k, n) ∷ counts) =
    let rest = count_key same key counts in
    if same key k then (k, suc n) ∷ counts else (k, n) ∷ rest

-- `sorted`, by a test that says which of two entries stands first.
unfoldable pub insert {ℓ} : {A : Type ℓ} → (A → A → Bool) → A → List A → List A
insert before x [] = x ∷ []
insert before x (y ∷ ys) =
    let rest = insert before x ys in if before y x then y ∷ rest else x ∷ y ∷ ys

unfoldable pub sorted {ℓ} : {A : Type ℓ} → (A → A → Bool) → List A → List A
unfolding insert
sorted before [] = []
sorted before (x ∷ xs) = insert before x (sorted before xs)

-- The order of texts by their code points.
text_before : Text → Text → Bool
text_before [] [] = false
text_before [] (b ∷ t) = true
text_before (a ∷ s) [] = false
text_before (a ∷ s) (b ∷ t) = ltb a b || (a == b && text_before s t)

reason_before : Text × ℕ → Text × ℕ → Bool
unfolding text_before
reason_before (a, m) (b, n) = text_before a b

-- `(-count, stream_id)`
unfoldable pub stream_before : ℕ × ℕ → ℕ × ℕ → Bool
stream_before (a, m) (b, n) = ltb n m || (m == n && ltb a b)

-- `item.get("failed_reason") or "unknown"`
reason_of : Option Text → Text
reason_of none = codes "unknown"
reason_of (some s) = if is_empty s then codes "unknown" else s

count_stream : Option ℕ → List (ℕ × ℕ) → List (ℕ × ℕ)
unfolding count_key
count_stream none streams = streams
count_stream (some n) streams = count_key ◌==◌ n streams

stream_of : Option ℕ → Option ℕ
unfolding safe_optional_positive_int
stream_of none = none
stream_of (some n) = safe_optional_positive_int (number n)

older : Option ℕ → Option ℕ → Option ℕ
older none oldest = oldest
older (some age) none = some age
older (some age) (some oldest) = if ltb oldest age then some age else some oldest

-- What the loop has counted so far.
pub record Counts : Type 0 where
  pub reasons : List (Text × ℕ)
  pub streams : List (ℕ × ℕ)
  pub oldest : Option ℕ
  pub replayable : ℕ
  pub blocked : ℕ

pub record Summary : Type 0 where
  pub total : ℕ
  pub replayable : ℕ
  pub blocked : ℕ
  pub oldest_sample_age_seconds : Option ℕ
  pub by_reason : List (Text × ℕ)
  pub by_stream : List (ℕ × ℕ)
  pub recent_samples : List DlqItem

module _ (age : DlqItem → Option ℕ) where
  counted_item : DlqItem → Counts → Counts
  unfolding count_key text_eq reason_of count_stream stream_of older
  counted_item item c = record {
    reasons = count_key text_eq (reason_of item.failed_reason) c.reasons;
    streams = count_stream (stream_of item.stream_id) c.streams;
    oldest = older (age item) c.oldest;
    replayable = if item.replayable then suc c.replayable else c.replayable;
    blocked = if item.replayable then c.blocked else suc c.blocked;
  }

  count_items : List DlqItem → Counts → Counts
  unfolding counted_item
  count_items [] c = c
  count_items (item ∷ items) c = count_items items (counted_item item c)

  -- `_summarize_dlq_items`
  unfoldable pub summarize_dlq_items : ℕ → List DlqItem → Summary
  unfolding count_items sorted reason_before stream_before
  summarize_dlq_items sample_limit items =
      let c =
        count_items items
          (record { reasons = []; streams = []; oldest = none; replayable = 0; blocked = 0 }) in
      record {
        total = length items;
        replayable = c.replayable;
        blocked = c.blocked;
        oldest_sample_age_seconds = c.oldest;
        by_reason = sorted reason_before c.reasons;
        by_stream = sorted stream_before c.streams;
        recent_samples = take sample_limit items;
      }
