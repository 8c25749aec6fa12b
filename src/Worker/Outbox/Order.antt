-- ===== src/Worker/Outbox/Order.antt =====
-- The row that `relay_once` takes: ORDER BY next_attempt_at, message_id LIMIT 1.
use cloud_portfolio.Prelude.{
  ℕ, ◌≤◌, ◌<◌, ap, ◌≡◌, refl, Bool, true, false, ◌&&◌, not, Option, none, some, List, [], ◌∷◌, All,
  if◌then◌else◌, arith, Bool-cases, ◌⊎◌, inl, inr,
}
use cloud_portfolio.Database.Tables.{Intent}
use cloud_portfolio.Worker.Outbox.{is_due, is_before, is_unpublished, earlier, first_due}
use cloud_portfolio.Worker.Outbox.Relayed.{IsIn}

before_irrefl : (a : Intent) → is_before a a ≡ false
unfolding is_before
before_irrefl a = ground arith

before_asym : (a b : Intent) → is_before a b ≡ true → is_before b a ≡ false
unfolding is_before
before_asym a b h = ground (arith, h)

not_before_trans :
    (a b c : Intent) → is_before a b ≡ false → is_before b c ≡ false → is_before a c ≡ false
unfolding is_before
not_before_trans a b c h k = ground (arith, h, k)

module _ (locked : ℕ → Bool) (now : ℕ) where
  -- The row can be taken: it is due, and no other relay has locked it.
  abbrev is_ready : Intent → Bool
  is_ready row = is_due now row && not (locked row.message_id)

  -- What the search has found in the rows.
  abbrev IsFound : List Intent → Option Intent → Type 0
  IsFound rows none = All (λ x. is_ready x ≡ false) rows
  IsFound rows (some row) =
      IsIn row rows
      × (is_ready row ≡ true)
      × All (λ x. (is_ready x ≡ false) ⊎ (is_before x row ≡ false)) rows

  All-imp :
      (P Q : Intent → Type 0) (rows : List Intent)
      → ((x : Intent) → P x → Q x)
      → All P rows
      → All Q rows
  All-imp P Q [] f h = tt
  All-imp P Q (x ∷ xs) f h = (f x h.0, All-imp P Q xs f h.1)

  earlier-IsFound :
      (y b : Intent) (ys : List Intent) (c : Bool)
      → is_before b y ≡ c
      → is_ready y ≡ true
      → IsFound ys (some b)
      → IsFound (y ∷ ys) (some (if c then b else y))
  earlier-IsFound y b ys true e ready h = (inr h.0, h.1, (inr (before_asym b y e), h.2))
  earlier-IsFound y b ys false e ready h = (
    inl refl,
    ready,
    (
      inr (before_irrefl y),
      All-imp _ _ ys
          (λ x k. elim k [ inl idle ↦ inl idle | inr late ↦ inr (not_before_trans x b y late e) ])
          h.2,
    ),
  )

  step-IsFound :
      (y : Intent) (ys : List Intent) (o : Option Intent) (c : Bool)
      → is_ready y ≡ c
      → IsFound ys o
      → IsFound (y ∷ ys) (if c then some (earlier y o) else o)
  unfolding earlier
  step-IsFound y ys none false e h = (e, h)
  step-IsFound y ys (some b) false e h = (inr h.0, h.1, (inl e, h.2))
  step-IsFound y ys none true e h =
      (inl refl, e, (inr (before_irrefl y), All-imp _ _ ys (λ x k. inl k) h))
  step-IsFound y ys (some b) true e h = earlier-IsFound y b ys (is_before b y) refl e h

  first_due-IsFound : (rows : List Intent) → IsFound rows (first_due locked now rows)
  unfolding first_due
  first_due-IsFound [] = tt
  first_due-IsFound (y ∷ ys) =
      step-IsFound y ys (first_due locked now ys) (is_ready y) refl (first_due-IsFound ys)

  -- The row waits to be published, its time has come, and no other relay has locked it.
  pub record IsReady (row : Intent) : Type 0 where
    pub unpublished : row.published_at ≡ none
    pub due : row.next_attempt_at ≤ now
    pub free : locked row.message_id ≡ false

  -- The row is published, its time has not come, or it is locked.
  abbrev pub IsIdle : Intent → Type 0
  IsIdle row =
      ((t : ℕ) × (row.published_at ≡ some t))
      ⊎ (now < row.next_attempt_at)
      ⊎ (locked row.message_id ≡ true)

  -- The row is tried before the other, or at the same time and has no larger id.
  abbrev pub IsNoLater : Intent → Intent → Type 0
  IsNoLater row x =
      (row.next_attempt_at < x.next_attempt_at)
      ⊎ ((row.next_attempt_at ≡ x.next_attempt_at) × (row.message_id ≤ x.message_id))

  -- What `relay_once` selects of the rows.
  abbrev pub IsFirst : List Intent → Option Intent → Type 0
  IsFirst rows none = All IsIdle rows
  IsFirst rows (some row) = IsIn row rows × IsReady row × All (λ x. IsIdle x ⊎ IsNoLater row x) rows

  is_ready-IsReady :
      (row : Intent) (o : Option ℕ) → row.published_at ≡ o → is_ready row ≡ true → IsReady row
  unfolding is_due
  is_ready-IsReady row none e h =
      let waits : is_unpublished row.published_at ≡ true = ap is_unpublished e in
      record { unpublished = e; due = ground (arith, h); free = ground (arith, h) }
  is_ready-IsReady row (some t) e h =
      let published : is_unpublished row.published_at ≡ false = ap is_unpublished e in
      absurd (ground (arith, h, published))

  is_ready-IsIdle :
      (row : Intent) (o : Option ℕ) → row.published_at ≡ o → is_ready row ≡ false → IsIdle row
  unfolding is_due
  is_ready-IsIdle row (some t) e h = inl (t, e)
  is_ready-IsIdle row none e h =
      let waits : is_unpublished row.published_at ≡ true = ap is_unpublished e in
      elim (Bool-cases (locked row.message_id)) [
        | inl taken ↦ inr (inr taken)
        | inr free ↦ inr (inl (ground (arith, h, waits, free)))
      ]

  no_later : (row x : Intent) → is_before x row ≡ false → IsNoLater row x
  unfolding is_before
  no_later row x h = ground (arith, h)

  -- The search finds nothing exactly if every row is published, not due yet, or locked; else it finds an
  -- unpublished row whose time has come and which is not locked, and none of them comes before it by its
  -- time and, at the same time, by its id.
  pub first_due-IsFirst : (rows : List Intent) → IsFirst rows (first_due locked now rows)
  first_due-IsFirst rows = seen (first_due locked now rows) (first_due-IsFound rows)
    where
      seen : (o : Option Intent) → IsFound rows o → IsFirst rows o
      seen none h = All-imp _ _ rows (λ x e. is_ready-IsIdle x x.published_at refl e) h
      seen (some row) h = (
        h.0,
        is_ready-IsReady row row.published_at refl h.1,
        All-imp _ _ rows
            (λ x e. elim e [
              | inl idle ↦ inl (is_ready-IsIdle x x.published_at refl idle)
              | inr late ↦ inr (no_later row x late)
            ])
            h.2,
      )
