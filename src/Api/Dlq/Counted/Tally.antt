-- ===== src/Api/Dlq/Counted/Tally.antt =====
-- What counting a key and sorting do to the counts of the keys.
use cloud_portfolio.Prelude.{
  ℕ, suc, sym, Bool-cases, inl, inr, ◌+◌, ◌≤◌, ◌≡◌, refl, ap, ◌∙◌, Bool, true, false, List, [], ◌∷◌,
  if◌then◌else◌, arith, if-result, subst,
}
use cloud_portfolio.Api.Dlq.Item.{DlqItem}
use cloud_portfolio.Api.Dlq.Counted.{count_key, insert, sorted}

-- The counts of the keys that pass, together.
abbrev pub tally {ℓ} : {K : Type ℓ} → (K → Bool) → List (K × ℕ) → ℕ
tally p [] = 0
tally p ((key, n) ∷ counts) = (if p key then n else 0) + tally p counts

-- How many entries there are of the keys that pass.
abbrev pub entries {ℓ} : {K : Type ℓ} → (K → Bool) → List (K × ℕ) → ℕ
entries p [] = 0
entries p ((key, n) ∷ counts) = (if p key then 1 else 0) + entries p counts

-- How many items pass.
abbrev pub count_if : (DlqItem → Bool) → List DlqItem → ℕ
count_if p [] = 0
count_if p (item ∷ items) = (if p item then 1 else 0) + count_if p items

module _ {ℓ} {K : Type ℓ} (p : K → Bool) where
  tally-insert :
      (before : K × ℕ → K × ℕ → Bool) (x : K × ℕ) (xs : List (K × ℕ))
      → tally p (insert before x xs) ≡ tally p (x ∷ xs)
  unfolding insert
  tally-insert before x [] = refl
  tally-insert before x (y ∷ ys) =
      if-result (λ c. tally p c ≡ tally p (x ∷ y ∷ ys)) (before y x) (y ∷ insert before x ys)
        (x ∷ y ∷ ys) (λ e. omega (arith, tally-insert before x ys)) (λ e. refl)

  pub tally-sorted :
      (before : K × ℕ → K × ℕ → Bool) (xs : List (K × ℕ)) → tally p (sorted before xs) ≡ tally p xs
  unfolding sorted
  tally-sorted before [] = refl
  tally-sorted before ((k, n) ∷ xs) =
      tally-insert before (k, n) (sorted before xs)
      ∙ ap (λ m. (if p k then n else 0) + m) (tally-sorted before xs)

  entries-insert :
      (before : K × ℕ → K × ℕ → Bool) (x : K × ℕ) (xs : List (K × ℕ))
      → entries p (insert before x xs) ≡ entries p (x ∷ xs)
  unfolding insert
  entries-insert before x [] = refl
  entries-insert before x (y ∷ ys) =
      if-result (λ c. entries p c ≡ entries p (x ∷ y ∷ ys)) (before y x) (y ∷ insert before x ys)
        (x ∷ y ∷ ys) (λ e. omega (arith, entries-insert before x ys)) (λ e. refl)

  pub entries-sorted :
      (before : K × ℕ → K × ℕ → Bool) (xs : List (K × ℕ))
      → entries p (sorted before xs) ≡ entries p xs
  unfolding sorted
  entries-sorted before [] = refl
  entries-sorted before ((k, n) ∷ xs) =
      entries-insert before (k, n) (sorted before xs)
      ∙ ap (λ m. (if p k then 1 else 0) + m) (entries-sorted before xs)

  module _ (same : K → K → Bool) (respects : (a b : K) → same a b ≡ true → p a ≡ p b)
      (identifies : (a b : K) → p a ≡ true → p b ≡ true → same a b ≡ true) where
    pub tally-count_key :
        (key : K) (counts : List (K × ℕ))
        → tally p (count_key same key counts) ≡ (if p key then 1 else 0) + tally p counts
    unfolding count_key
    tally-count_key key [] = refl
    tally-count_key key ((k, n) ∷ counts) =
        if-result (λ c. tally p c ≡ (if p key then 1 else 0) + tally p ((k, n) ∷ counts))
          (same key k) ((k, suc n) ∷ counts) ((k, n) ∷ count_key same key counts)
          (λ e.
            subst
              (λ b.
                (if p k then suc n else 0) + tally p counts
                ≡ (if b then 1 else 0) + ((if p k then n else 0) + tally p counts))
              (sym (respects key k e)) (one_more (p k) n (tally p counts)))
          (λ e. omega (arith, tally-count_key key counts))
      where
        one_more :
            (b : Bool) (n t : ℕ)
            → (if b then suc n else 0) + t ≡ (if b then 1 else 0) + ((if b then n else 0) + t)
        one_more true n t = omega arith
        one_more false n t = omega arith

    entries-missed :
        (key : K) (counts : List (K × ℕ))
        → p key ≡ false
        → entries p (count_key same key counts) ≡ entries p counts
    unfolding count_key
    entries-missed key [] h = rw h refl
    entries-missed key ((k, n) ∷ counts) h =
        if-result (λ c. entries p c ≡ entries p ((k, n) ∷ counts)) (same key k)
          ((k, suc n) ∷ counts) ((k, n) ∷ count_key same key counts) (λ e. refl)
          (λ e. ap (λ m. (if p k then 1 else 0) + m) (entries-missed key counts h))

    -- A key that is counted keeps one entry at most.
    pub entries-count_key :
        (key : K) (counts : List (K × ℕ))
        → entries p counts ≤ 1
        → entries p (count_key same key counts) ≤ 1
    unfolding count_key
    entries-count_key key [] h = ground arith
    entries-count_key key ((k, n) ∷ counts) h =
        if-result (λ c. entries p c ≤ 1) (same key k) ((k, suc n) ∷ counts)
          ((k, n) ∷ count_key same key counts) (λ e. h)
          (λ e. elim (Bool-cases (p k)) [
            | inr fails ↦
                let rest : entries p counts ≤ 1 = ground (arith, h, fails) in
                ground (arith, entries-count_key key counts rest, fails)
            | inl own ↦ elim (Bool-cases (p key)) [
              | inl both ↦ cc (e, identifies key k both own)
              | inr misses ↦ ground (arith, h, own, entries-missed key counts misses)
            ]
          ])
