-- ===== src/Worker/Outbox/Intents.antt =====
-- Which events have an intent to notify in the outbox.
use cloud_portfolio.Prelude.{
  is_some, ℕ, ◌≡◌, refl, ap, Bool, true, ◌||◌, Option, none, some, List, ◌==◌, arith, Bool-cases,
  inl, inr, subst, ==_iff,
}
use cloud_portfolio.Database.Tables.{Intent}
use cloud_portfolio.Database.Find.{find, find-append}
use cloud_portfolio.Worker.Outbox.{is_intent, insert_unless, insert_intent}

unfoldable pub has_intent : ℕ → List Intent → Bool
has_intent message_id rows = is_some (find (is_intent message_id) rows)

has_intent-insert_unless :
    (row : Intent) (rows : List Intent) (n : ℕ) (o : Option Intent)
    → find (is_intent row.message_id) rows ≡ o
    → has_intent n (insert_unless row rows o) ≡ (row.message_id == n || has_intent n rows)
unfolding has_intent insert_unless
has_intent-insert_unless row rows n none e =
    rw (find-append (is_intent n) rows row) (unfold is_intent in ground arith)
has_intent-insert_unless row rows n (some old) e = elim (Bool-cases (row.message_id == n)) [
  | inr other ↦ rw other refl
  | inl same ↦ rw same (
      subst (λ k. is_some (find (is_intent k) rows) ≡ true) ((==_iff row.message_id n).0 same)
        (ap is_some e))
]

-- After an insertion the event of the row has an intent, and all that had one still have.
pub has_intent-insert_intent :
    (row : Intent) (rows : List Intent) (n : ℕ)
    → has_intent n (insert_intent row rows) ≡ (row.message_id == n || has_intent n rows)
unfolding insert_intent
has_intent-insert_intent row rows n =
    has_intent-insert_unless row rows n (find (is_intent row.message_id) rows) refl
