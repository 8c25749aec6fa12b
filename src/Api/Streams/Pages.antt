-- ===== src/Api/Streams/Pages.antt =====
-- What `list_events` lists.
use cloud_portfolio.Prelude.{ℕ, ◌+◌, ◌≡◌, Bool, List, [], ◌∷◌, take, if◌then◌else◌}
use cloud_portfolio.Database.Tables.{Database, Message}
use cloud_portfolio.Api.Dlq.Counted.Sums.{IsOrdered}
use cloud_portfolio.Api.Streams.{newer}

-- How many elements pass.
abbrev pub count {ℓ} : {A : Type ℓ} → (A → Bool) → List A → ℕ
count p [] = 0
count p (x ∷ xs) = (if p x then 1 else 0) + count p xs

-- The first `limit` of a list that has the same rows as the wanted ones, newest first.
pub record IsPage (limit : ℕ) (wanted rows : List Message) : Type 0 where
  pub all_rows : List Message
  pub first : rows ≡ take limit all_rows
  pub ordered : IsOrdered newer all_rows
  pub same_rows : (p : Message → Bool) → count p all_rows ≡ count p wanted
