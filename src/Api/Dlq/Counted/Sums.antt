-- ===== src/Api/Dlq/Counted/Sums.antt =====
-- What the summary of dead letters counts, and how it is ordered.
use cloud_portfolio.Api.Dlq.Counted.Tally.{
  tally, entries, count_if, tally-sorted, entries-sorted, tally-count_key, entries-count_key,
}
use cloud_portfolio.Prelude.{
  ℕ, suc, sym, ◌&&◌, not, leb, Text, codes, text_eq_iff, Bool-cases, inl, inr, ◌+◌, ◌≤◌, ◌≡◌, refl,
  ap, ◌∙◌, Bool, true, false, Option, none, some, List, [], ◌∷◌, length, ◌==◌, if◌then◌else◌,
  text_eq, arith, if-result, subst,
}
use cloud_portfolio.Json.Checks.{number, max_postgres_bigint}
use cloud_portfolio.Api.Dlq.Item.{DlqItem, safe_int, safe_optional_positive_int}
use cloud_portfolio.Api.Dlq.Counted.{
  insert, sorted, stream_before, reason_before, count_stream, stream_of, reason_of, Counts, Summary,
  counted_item, count_items, summarize_dlq_items,
}

module _ {ℓ} {A : Type ℓ} (before : A → A → Bool) where
  -- No entry stands before the one in front of it.
  abbrev pub IsOrdered : List A → Type 0
  IsOrdered [] = Unit
  IsOrdered (x ∷ []) = Unit
  IsOrdered (x ∷ y ∷ ys) = (before y x ≡ false) × IsOrdered (y ∷ ys)

  insert-IsOrdered :
      ((x y : A) → before x y ≡ true → before y x ≡ false)
      → (x : A) (xs : List A) → IsOrdered xs
      → IsOrdered (insert before x xs)
  unfolding insert
  insert-IsOrdered asym x [] h = tt
  insert-IsOrdered asym x (y ∷ []) h =
      if-result IsOrdered (before y x) _ _ (λ p. (asym y x p, tt)) (λ p. (p, tt))
  insert-IsOrdered asym x (y ∷ z ∷ zs) h =
      if-result IsOrdered (before y x) _ _
        (λ p.
          if-result (λ l. IsOrdered l → IsOrdered (y ∷ l)) (before z x) _ _ (λ q k. (h.0, k))
            (λ q k. (asym y x p, k)) (insert-IsOrdered asym x (z ∷ zs) h.1))
        (λ p. (p, h))

  pub sorted-IsOrdered :
      ((x y : A) → before x y ≡ true → before y x ≡ false)
      → (xs : List A) → IsOrdered (sorted before xs)
  unfolding sorted
  sorted-IsOrdered asym [] = tt
  sorted-IsOrdered asym (x ∷ xs) =
      insert-IsOrdered asym x (sorted before xs) (sorted-IsOrdered asym xs)

stream_before_asym : (x y : ℕ × ℕ) → stream_before x y ≡ true → stream_before y x ≡ false
unfolding stream_before
stream_before_asym (a, m) (b, n) h = ground arith

-- The reason of an item, by which it is to be counted; a missing or empty one is "unknown".
abbrev pub has_reason : Text → Option Text → Bool
has_reason r none = text_eq (codes "unknown") r
has_reason r (some []) = text_eq (codes "unknown") r
has_reason r (some (c ∷ s)) = text_eq (c ∷ s) r

-- The stream of an item, by which it is to be counted, where it is an id.
abbrev pub has_stream : ℕ → Option ℕ → Bool
has_stream n none = false
has_stream n (some m) = m == n && (leb 1 m && leb m max_postgres_bigint)

reason_of-has_reason : (r : Text) (o : Option Text) → text_eq (reason_of o) r ≡ has_reason r o
unfolding reason_of
reason_of-has_reason r none = refl
reason_of-has_reason r (some []) = refl
reason_of-has_reason r (some (c ∷ s)) = refl

text_respects : (r a b : Text) → text_eq a b ≡ true → text_eq a r ≡ text_eq b r
text_respects r a b e = ap (λ t. text_eq t r) ((text_eq_iff a b).0 e)

text_identifies : (r a b : Text) → text_eq a r ≡ true → text_eq b r ≡ true → text_eq a b ≡ true
text_identifies r a b e f =
    (text_eq_iff a b).1 ((text_eq_iff a r).0 e ∙ sym ((text_eq_iff b r).0 f))

id_of :
    (m : ℕ)
    → (leb 1 m && leb m max_postgres_bigint) ≡ true
    → safe_optional_positive_int (number m) ≡ some m
unfolding safe_optional_positive_int safe_int
id_of m h = ground (arith, h)

no_id :
    (m : ℕ)
    → (leb 1 m && leb m max_postgres_bigint) ≡ false
    → safe_optional_positive_int (number m) ≡ none
unfolding safe_optional_positive_int safe_int
no_id m h = ground (arith, h)

count_stream-tally :
    (n : ℕ) (o : Option ℕ) (streams : List (ℕ × ℕ))
    → tally (λ k. k == n) (count_stream (stream_of o) streams)
      ≡ (if has_stream n o then 1 else 0) + tally (λ k. k == n) streams
unfolding stream_of
count_stream-tally n none streams = unfold count_stream in omega arith
count_stream-tally n (some m) streams = elim (Bool-cases (leb 1 m && leb m max_postgres_bigint)) [
  | inl valid ↦
      let found : safe_optional_positive_int (number m) ≡ some m = id_of m valid in
      ap (λ o. tally (λ k. k == n) (count_stream o streams)) found
      ∙ unfold count_stream in
        tally-count_key (λ k. k == n) ◌==◌ (λ a b e. ground (arith, e))
          (λ a b e f. ground (arith, e, f)) m streams
        ∙ ap (λ b. (if b then 1 else 0) + tally (λ k. k == n) streams)
            (sym (ap (λ b. (m == n) && b) valid ∙ and_true (m == n)))
  | inr invalid ↦
      let missing : safe_optional_positive_int (number m) ≡ none = no_id m invalid in
      ap (λ o. tally (λ k. k == n) (count_stream o streams)) missing
      ∙ unfold count_stream in
        zero_more (tally (λ k. k == n) streams)
        ∙ ap (λ b. (if b then 1 else 0) + tally (λ k. k == n) streams)
            (sym (ap (λ b. (m == n) && b) invalid ∙ and_false (m == n)))
]
  where
    zero_more : (t : ℕ) → t ≡ 0 + t
    zero_more t = omega arith

    and_true : (b : Bool) → (b && true) ≡ b
    and_true true = refl
    and_true false = refl

    and_false : (b : Bool) → (b && false) ≡ false
    and_false true = refl
    and_false false = refl

count_stream-entries :
    (n : ℕ) (o : Option ℕ) (streams : List (ℕ × ℕ))
    → entries (λ k. k == n) streams ≤ 1
    → entries (λ k. k == n) (count_stream o streams) ≤ 1
unfolding count_stream
count_stream-entries n none streams h = h
count_stream-entries n (some m) streams h =
    entries-count_key (λ k. k == n) ◌==◌ (λ a b e. ground (arith, e))
      (λ a b e f. ground (arith, e, f)) m streams h

module _ (age : DlqItem → Option ℕ) where
  reasons-tally :
      (r : Text) (items : List DlqItem) (c : Counts)
      → tally (λ k. text_eq k r) (count_items age items c).reasons
        ≡ count_if (λ item. has_reason r item.failed_reason) items
          + tally (λ k. text_eq k r) c.reasons
  unfolding count_items counted_item
  reasons-tally r [] c = omega arith
  reasons-tally r (item ∷ items) c =
      let one : tally (λ k. text_eq k r) (counted_item age item c).reasons
          ≡ (if has_reason r item.failed_reason then 1 else 0)
            + tally (λ k. text_eq k r) c.reasons =
        tally-count_key (λ k. text_eq k r) text_eq (text_respects r) (text_identifies r)
          (reason_of item.failed_reason) c.reasons
        ∙ ap (λ b. (if b then 1 else 0) + tally (λ k. text_eq k r) c.reasons)
            (reason_of-has_reason r item.failed_reason) in
      omega (arith, reasons-tally r items (counted_item age item c), one)

  reasons-entries :
      (r : Text) (items : List DlqItem) (c : Counts)
      → entries (λ k. text_eq k r) c.reasons ≤ 1
      → entries (λ k. text_eq k r) (count_items age items c).reasons ≤ 1
  unfolding count_items counted_item
  reasons-entries r [] c h = h
  reasons-entries r (item ∷ items) c h = reasons-entries r items (counted_item age item c) (
      entries-count_key (λ k. text_eq k r) text_eq (text_respects r) (text_identifies r)
        (reason_of item.failed_reason) c.reasons h)

  streams-tally :
      (n : ℕ) (items : List DlqItem) (c : Counts)
      → tally (λ k. k == n) (count_items age items c).streams
        ≡ count_if (λ item. has_stream n item.stream_id) items + tally (λ k. k == n) c.streams
  unfolding count_items counted_item
  streams-tally n [] c = omega arith
  streams-tally n (item ∷ items) c =
      let one : tally (λ k. k == n) (counted_item age item c).streams
          ≡ (if has_stream n item.stream_id then 1 else 0) + tally (λ k. k == n) c.streams =
        count_stream-tally n item.stream_id c.streams in
      omega (arith, streams-tally n items (counted_item age item c), one)

  streams-entries :
      (n : ℕ) (items : List DlqItem) (c : Counts)
      → entries (λ k. k == n) c.streams ≤ 1
      → entries (λ k. k == n) (count_items age items c).streams ≤ 1
  unfolding count_items counted_item
  streams-entries n [] c h = h
  streams-entries n (item ∷ items) c h =
      streams-entries n items (counted_item age item c)
        (count_stream-entries n (stream_of item.stream_id) c.streams h)

  verdicts :
      (items : List DlqItem) (c : Counts)
      → ((count_items age items c).replayable
          ≡ count_if (λ item. item.replayable) items + c.replayable)
        × ((count_items age items c).blocked
            ≡ count_if (λ item. not item.replayable) items + c.blocked)
  unfolding count_items counted_item
  verdicts [] c = (omega arith, omega arith)
  verdicts (item ∷ items) c =
      let (open_ones, shut) = verdicts items (counted_item age item c) in
      (one item.replayable _ _ _ open_ones, other item.replayable _ _ _ shut)
    where
      one :
          (b : Bool) (t m n : ℕ)
          → t ≡ m + (if b then suc n else n)
          → t ≡ ((if b then 1 else 0) + m) + n
      one true t m n h = omega (arith, h)
      one false t m n h = omega (arith, h)

      other :
          (b : Bool) (t m n : ℕ)
          → t ≡ m + (if b then n else suc n)
          → t ≡ ((if not b then 1 else 0) + m) + n
      other true t m n h = omega (arith, h)
      other false t m n h = omega (arith, h)

-- A summary that counts the items rightly: by verdict, by reason and by stream, with one entry for a
-- reason or a stream at most, and the streams by falling count and then by their ids.
pub record AddsUp (items : List DlqItem) (s : Summary) : Type 0 where
  pub total : s.total ≡ length items
  pub replayable : s.replayable ≡ count_if (λ item. item.replayable) items
  pub blocked : s.blocked ≡ count_if (λ item. not item.replayable) items
  pub reasons :
      (r : Text)
      → tally (λ k. text_eq k r) s.by_reason
        ≡ count_if (λ item. has_reason r item.failed_reason) items
  pub one_by_reason : (r : Text) → entries (λ k. text_eq k r) s.by_reason ≤ 1
  pub streams :
      (n : ℕ)
      → tally (λ k. k == n) s.by_stream ≡ count_if (λ item. has_stream n item.stream_id) items
  pub one_by_stream : (n : ℕ) → entries (λ k. k == n) s.by_stream ≤ 1
  pub ordered : IsOrdered stream_before s.by_stream

-- Of every list of dead letters the summary counts rightly: the replayable ones and the blocked ones;
-- under each reason the letters that have it, where a missing or empty one is "unknown"; under each
-- stream the letters that name it by a valid id. A reason or a stream has one entry at most; the streams
-- stand by falling count, and those of the same count by their ids.
pub summarize_dlq_items-AddsUp :
    (age : DlqItem → Option ℕ) (sample_limit : ℕ) (items : List DlqItem)
    → AddsUp items (summarize_dlq_items age sample_limit items)
unfolding summarize_dlq_items
summarize_dlq_items-AddsUp age sample_limit items =
    let start : Counts = record {
      reasons = [];
      streams = [];
      oldest = none;
      replayable = 0;
      blocked = 0;
    } in
    let c = count_items age items start in
    let (open_ones, shut) = verdicts age items start in
    record {
      total = refl;
      replayable = omega (arith, open_ones);
      blocked = omega (arith, shut);
      reasons = λ r.
          tally-sorted (λ k. text_eq k r) reason_before c.reasons
          ∙ omega (arith, reasons-tally age r items start);
      one_by_reason = λ r.
          subst (λ n. n ≤ 1) (sym (entries-sorted (λ k. text_eq k r) reason_before c.reasons))
            (reasons-entries age r items start (omega arith));
      streams = λ n.
          tally-sorted (λ k. k == n) stream_before c.streams
          ∙ omega (arith, streams-tally age n items start);
      one_by_stream = λ n.
          subst (λ m. m ≤ 1) (sym (entries-sorted (λ k. k == n) stream_before c.streams))
            (streams-entries age n items start (omega arith));
      ordered = sorted-IsOrdered stream_before stream_before_asym c.streams;
    }
