-- ===== src/Worker/Outbox/Relayed.antt =====
-- The relay: a row counts as published only once its record is in the topic, and no row is dropped.
use cloud_portfolio.Prelude.{
  ℕ, zero, suc, ◌^◌, ◌≤◌, min, ◌≡◌, ◌≢◌, refl, sym, ◌∙◌, ap, subst, Bool, true, false, ◌&&◌, not,
  Option, none, some, List, [], ◌∷◌, ◌++◌, map, All, ==_iff, if◌then◌else◌, arith, ◌⊎◌, inl, inr,
}
use cloud_portfolio.Json.{Fields}
use cloud_portfolio.Database.Tables.{Intent}
use cloud_portfolio.Database.Find.{update_where}
use cloud_portfolio.Worker.Outbox.{
  Send, acknowledged, refused, unanswered, Commit, committed, lost, Relay, is_intent, is_due,
  is_before, earlier, first_due, note_failure, note_published, appended, noted, settle, relay_row,
  relay_once, backoff_seconds,
}

pow2_pos : (n : ℕ) → 1 ≤ 2 ^ n
pow2_pos zero = omega arith
pow2_pos (suc n) = omega (arith, pow2_pos n)

-- The wait before the next attempt is between one second and a minute.
pub backoff_seconds-bounds :
    (attempts : ℕ) → (1 ≤ backoff_seconds attempts) × (backoff_seconds attempts ≤ 60)
unfolding backoff_seconds
backoff_seconds-bounds attempts = (omega (arith, pow2_pos (min attempts 6)), omega arith)

abbrev pub IsIn : {A : Type 0} → A → List A → Type 0
IsIn x [] = ⊥
IsIn x (y ∷ ys) = (y ≡ x) ⊎ IsIn x ys

abbrev pub IsDistinct : List ℕ → Type 0
IsDistinct [] = Unit
IsDistinct (n ∷ ns) = All (λ m. m ≢ n) ns × IsDistinct ns

abbrev IsSentAt : List (ℕ × Fields) → ℕ × Fields → Option ℕ → Type 0
IsSentAt topic r none = Unit
IsSentAt topic r (some t) = IsIn r topic

-- A row that counts as published has its record in the topic.
abbrev pub IsSent : List (ℕ × Fields) → Intent → Type 0
IsSent topic row = IsSentAt topic (row.room_id, row.payload) row.published_at

abbrev pub message_ids : List Intent → List ℕ
message_ids rows = map (λ (row : Intent). row.message_id) rows

-- Each event has one intent, and none is published without its record.
pub record IsSound (relay : Relay) : Type 0 where
  pub distinct : IsDistinct (message_ids relay.outbox)
  pub sent : All (IsSent relay.topic) relay.outbox

IsIn-append : {A : Type 0} (r x : A) (xs : List A) → IsIn r xs → IsIn r (xs ++ x ∷ [])
IsIn-append r x [] h = absurd h
IsIn-append r x (y ∷ ys) (inl e) = inl e
IsIn-append r x (y ∷ ys) (inr h) = inr (IsIn-append r x ys h)

IsIn-last : {A : Type 0} (x : A) (xs : List A) → IsIn x (xs ++ x ∷ [])
IsIn-last x [] = inl refl
IsIn-last x (y ∷ ys) = inr (IsIn-last x ys)

IsSentAt-append :
    (topic : List (ℕ × Fields)) (r x : ℕ × Fields) (at : Option ℕ)
    → IsSentAt topic r at
    → IsSentAt (topic ++ x ∷ []) r at
IsSentAt-append topic r x none h = tt
IsSentAt-append topic r x (some t) h = IsIn-append r x topic h

IsSent-appended :
    (send : Send) (sent : Intent) (topic : List (ℕ × Fields)) (row : Intent)
    → IsSent topic row
    → IsSent (appended send sent topic) row
unfolding appended
IsSent-appended acknowledged sent topic row h =
    IsSentAt-append topic (row.room_id, row.payload) (sent.room_id, sent.payload) row.published_at h
IsSent-appended (refused e) sent topic row h = h
IsSent-appended (unanswered e) sent topic row h =
    IsSentAt-append topic (row.room_id, row.payload) (sent.room_id, sent.payload) row.published_at h

All-IsIn : (P : Intent → Type 0) (rows : List Intent) (x : Intent) → All P rows → IsIn x rows → P x
All-IsIn P [] x h i = absurd i
All-IsIn P (y ∷ ys) x h (inl e) = subst P e h.0
All-IsIn P (y ∷ ys) x h (inr i) = All-IsIn P ys x h.1 i

All-ids :
    (n : ℕ) (rows : List Intent) (x : Intent)
    → All (λ m. m ≢ n) (message_ids rows)
    → IsIn x rows
    → x.message_id ≢ n
All-ids n [] x h i = absurd i
All-ids n (y ∷ ys) x h (inl e) = λ k. h.0 (ap (λ (r : Intent). r.message_id) e ∙ k)
All-ids n (y ∷ ys) x h (inr i) = All-ids n ys x h.1 i

-- Two rows of one id are the same row.
unique :
    (rows : List Intent) (x y : Intent)
    → IsDistinct (message_ids rows)
    → IsIn x rows
    → IsIn y rows
    → x.message_id ≡ y.message_id
    → x ≡ y
unique [] x y d i j same = absurd i
unique (z ∷ zs) x y d (inl e) (inl k) same = sym e ∙ k
unique (z ∷ zs) x y d (inl e) (inr k) same =
    absurd (All-ids z.message_id zs y d.0 k (sym same ∙ sym (ap (λ (r : Intent). r.message_id) e)))
unique (z ∷ zs) x y d (inr e) (inl k) same =
    absurd (All-ids z.message_id zs x d.0 e (same ∙ sym (ap (λ (r : Intent). r.message_id) k)))
unique (z ∷ zs) x y d (inr e) (inr k) same = unique zs x y d.1 e k same

if-P :
    {A : Type 0} (P : A → Type 0) (b : Bool) (x y : A)
    → (b ≡ true → P x)
    → (b ≡ false → P y)
    → P (if b then x else y)
if-P P true x y hx hy = hx refl
if-P P false x y hx hy = hy refl

if-some :
    (x : Intent) (rows : List Intent) (c : Bool) (a : Intent) (o : Option Intent)
    → (c ≡ true → IsIn a rows)
    → (o ≡ some x → IsIn x rows)
    → (if c then some a else o) ≡ some x
    → IsIn x rows
if-some x rows true a o h k e = subst (λ r. IsIn r rows) (some_inj e) (h refl)
  where
    some_inj : {r s : Intent} → some r ≡ some s → r ≡ s
    some_inj q = cc
if-some x rows false a o h k e = k e

earlier-IsIn :
    (row : Intent) (rows : List Intent) (o : Option Intent)
    → ((x : Intent) → o ≡ some x → IsIn x rows)
    → IsIn (earlier row o) (row ∷ rows)
unfolding earlier
earlier-IsIn row rows none h = inl refl
earlier-IsIn row rows (some b) h =
    if-P (λ r. IsIn r (row ∷ rows)) (is_before b row) b row (λ e. inr (h b refl)) (λ e. inl refl)

-- The row that is relayed is one of the outbox.
first_due-IsIn :
    (locked : ℕ → Bool) (now : ℕ) (rows : List Intent) (row : Intent)
    → first_due locked now rows ≡ some row
    → IsIn row rows
unfolding first_due
first_due-IsIn locked now [] row h = cc
first_due-IsIn locked now (x ∷ xs) row h =
    if-some row (x ∷ xs) (is_due now x && not (locked x.message_id)) _ _
      (λ due. earlier-IsIn x xs (first_due locked now xs) (first_due-IsIn locked now xs))
      (λ found. inr (first_due-IsIn locked now xs row found)) h

update_where-All :
    (P : Intent → Type 0) (p : Intent → Bool) (f : Intent → Intent) (rows : List Intent)
    → ((x : Intent) → IsIn x rows → p x ≡ true → P (f x))
    → ((x : Intent) → IsIn x rows → P x)
    → All P (update_where p f rows)
unfolding update_where
update_where-All P p f [] h k = tt
update_where-All P p f (x ∷ xs) h k = (
  if-P P (p x) (f x) x (h x (inl refl)) (λ e. k x (inl refl)),
  update_where-All P p f xs (λ y i. h y (inr i)) (λ y i. k y (inr i)),
)

same_ids :
    (p : Intent → Bool) (f : Intent → Intent) (rows : List Intent)
    → ((x : Intent) → (f x).message_id ≡ x.message_id)
    → message_ids (update_where p f rows) ≡ message_ids rows
unfolding update_where
same_ids p f [] h = refl
same_ids p f (x ∷ xs) h = rw (same_ids p f xs h) (
    if-P (λ r. r.message_id ∷ message_ids xs ≡ x.message_id ∷ message_ids xs) (p x) (f x) x
      (λ e. ap (λ n. n ∷ message_ids xs) (h x)) (λ e. refl))

noted-id : (send : Send) (now : ℕ) (x : Intent) → (noted send now x).message_id ≡ x.message_id
unfolding noted note_failure note_published
noted-id acknowledged now x = refl
noted-id (refused e) now x = refl
noted-id (unanswered e) now x = refl

-- The row after the send, where its record is in the topic if the send was acknowledged.
noted-IsSent :
    (send : Send) (now : ℕ) (row : Intent) (topic : List (ℕ × Fields))
    → IsSent topic row
    → IsSent (appended send row topic) (noted send now row)
unfolding noted note_failure note_published appended
noted-IsSent acknowledged now row topic h = IsIn-last (row.room_id, row.payload) topic
noted-IsSent (refused e) now row topic h = h
noted-IsSent (unanswered e) now row topic h =
    IsSentAt-append topic (row.room_id, row.payload) (row.room_id, row.payload) row.published_at h

settle-IsSent :
    (commit : Commit) (send : Send) (now : ℕ) (row : Intent) (relay : Relay)
    → IsSound relay
    → IsIn row relay.outbox
    → All (IsSent (appended send row relay.topic)) (settle commit send now row relay.outbox)
unfolding settle is_intent
settle-IsSent committed send now row relay c i =
    update_where-All _ (is_intent row.message_id) (noted send now) relay.outbox
      (λ x j e.
        subst (λ (r : Intent). IsSent (appended send row relay.topic) (noted send now r))
          (unique relay.outbox row x c.distinct i j
            (sym ((==_iff x.message_id row.message_id).0 e)))
          (noted-IsSent send now row relay.topic (All-IsIn _ relay.outbox row c.sent i)))
      (λ x j. IsSent-appended send row relay.topic x (All-IsIn _ relay.outbox x c.sent j))
settle-IsSent lost send now row relay c i =
    All-imp relay.outbox
      (λ x j. IsSent-appended send row relay.topic x (All-IsIn _ relay.outbox x c.sent j))
  where
    All-imp :
        {P : Intent → Type 0} (rows : List Intent) → ((x : Intent) → IsIn x rows → P x) → All P rows
    All-imp [] h = tt
    All-imp (x ∷ xs) h = (h x (inl refl), All-imp xs (λ y k. h y (inr k)))

settle-ids :
    (commit : Commit) (send : Send) (now : ℕ) (row : Intent) (rows : List Intent)
    → message_ids (settle commit send now row rows) ≡ message_ids rows
unfolding settle
settle-ids committed send now row rows =
    same_ids (is_intent row.message_id) (noted send now) rows (noted-id send now)
settle-ids lost send now row rows = refl

relay_row-IsSound :
    (o : Option Intent) (send : Send) (commit : Commit) (now : ℕ) (relay : Relay)
    → ((row : Intent) → o ≡ some row → IsIn row relay.outbox)
    → IsSound relay
    → (message_ids (relay_row o send commit now relay).1.outbox ≡ message_ids relay.outbox)
      × IsSound (relay_row o send commit now relay).1
unfolding relay_row
relay_row-IsSound none send commit now relay h c = (refl, c)
relay_row-IsSound (some row) send commit now relay h c = (
  settle-ids commit send now row relay.outbox,
  record {
    distinct = subst IsDistinct (sym (settle-ids commit send now row relay.outbox)) c.distinct;
    sent = settle-IsSent commit send now row relay c (h row refl);
  },
)

-- A round of the relay keeps every row of the outbox, and no row is marked as published whose record
-- is not in the topic: whether the send is acknowledged, refused or unanswered, whether the commit
-- is lost, and whatever rows other relays have locked.
pub relay_once-IsSound :
    (locked : ℕ → Bool) (send : Send) (commit : Commit) (now : ℕ) (relay : Relay)
    → IsSound relay
    → (message_ids (relay_once locked send commit now relay).1.outbox ≡ message_ids relay.outbox)
      × IsSound (relay_once locked send commit now relay).1
unfolding relay_once
relay_once-IsSound locked send commit now relay c =
    relay_row-IsSound (first_due locked now relay.outbox) send commit now relay
      (first_due-IsIn locked now relay.outbox) c
