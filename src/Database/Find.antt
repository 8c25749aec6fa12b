-- ===== src/Database/Find.antt =====
-- Search and update of rows, for SELECT, UPDATE and ON CONFLICT over a key.
use cloud_portfolio.Prelude.{
  ◌≡◌, refl, sym, ap, subst, Bool, true, false, Option, none, some, List, [], ◌∷◌, ◌++◌, any,
  if◌then◌else◌, arith, Bool-cases, inl, inr,
}

module _ {ℓ} {A : Type ℓ} where
  -- The first row that passes.
  unfoldable pub find : (A → Bool) → List A → Option A
  find p [] = none
  find p (x ∷ xs) = if p x then some x else find p xs

  -- Each row that passes is changed.
  unfoldable pub update_where : (A → Bool) → (A → A) → List A → List A
  update_where p f [] = []
  update_where p f (x ∷ xs) = (if p x then f x else x) ∷ update_where p f xs

  -- Each row that passes is removed.
  unfoldable pub delete_where : (A → Bool) → List A → List A
  delete_where p [] = []
  delete_where p (x ∷ xs) = let rest = delete_where p xs in if p x then rest else x ∷ rest

  pub find-none_iff_any : (p : A → Bool) (xs : List A) → any p xs ≡ false → find p xs ≡ none
  unfolding find
  find-none_iff_any p [] h = refl
  find-none_iff_any p (x ∷ xs) h = ground (arith, find-none_iff_any p xs)

  -- A row at the end is found if none before it passes.
  pub find-append :
      (p : A → Bool) (xs : List A) (y : A)
      → find p (xs ++ y ∷ [])
        ≡ elim (find p xs) [ some x ↦ some x | none ↦ if p y then some y else none ]
  unfolding find
  find-append p [] y = ground arith
  find-append p (x ∷ xs) y = ground (arith, find-append p xs y)

  pub find-passes : (p : A → Bool) (xs : List A) (x : A) → find p xs ≡ some x → p x ≡ true
  unfolding find
  find-passes p [] x h = cc
  find-passes p (y ∷ xs) x h = ground (arith, find-passes p xs x)

  pub find-replaced :
      (p : A → Bool) (row : A) (xs : List A) (x : A)
      → p row ≡ true
      → find p xs ≡ some x
      → find p (update_where p (λ r. row) xs) ≡ some row
  unfolding find update_where
  find-replaced p row [] x h e = cc
  find-replaced p row (y ∷ xs) x h e = elim (Bool-cases (p y)) [
    | inl passes ↦ rw (passes, h) refl
    | inr fails ↦ rw (fails, fails) (find-replaced p row xs x h (ground (arith, fails, e)))
  ]

  -- Rows that another test passes are not changed.
  pub find-elsewhere :
      (p q : A → Bool) (row : A) (xs : List A)
      → ((x : A) → p x ≡ true → q x ≡ false)
      → q row ≡ false
      → find q (update_where p (λ r. row) xs) ≡ find q xs
  unfolding find update_where
  find-elsewhere p q row [] d h = refl
  find-elsewhere p q row (y ∷ xs) d h = elim (Bool-cases (p y)) [
    | inl passes ↦ rw (passes, h, d y passes) (find-elsewhere p q row xs d h)
    | inr fails ↦ rw (fails, find-elsewhere p q row xs d h) refl
  ]

  -- A row that is not changed is still found, if no row before it comes to pass.
  pub find-kept :
      (p q : A → Bool) (row : A) (xs : List A) (x : A)
      → ((y : A) → q y ≡ true → p y ≡ false → p row ≡ false)
      → q x ≡ false
      → find p xs ≡ some x
      → find p (update_where q (λ r. row) xs) ≡ some x
  unfolding find update_where
  find-kept p q row [] x d h e = cc
  find-kept p q row (y ∷ xs) x d h e = elim (Bool-cases (p y)) [
    | inl passes ↦
        let same : y ≡ x = ground (arith, e, passes) in
        let kept : q y ≡ false = subst (λ z. q z ≡ false) (sym same) h in
        rw (kept, passes) (ap some same)
    | inr fails ↦
        let rest = find-kept p q row xs x d h (ground (arith, e, fails)) in
        elim (Bool-cases (q y)) [
          | inl changed ↦ rw (changed, d y changed fails) rest
          | inr kept ↦ rw (kept, fails) rest
        ]
  ]

  pub find-left :
      (p q : A → Bool) (xs : List A) (x : A)
      → q x ≡ false
      → find p xs ≡ some x
      → find p (delete_where q xs) ≡ some x
  unfolding find delete_where
  find-left p q [] x h e = cc
  find-left p q (y ∷ xs) x h e = elim (Bool-cases (p y)) [
    | inl passes ↦
        let same : y ≡ x = ground (arith, e, passes) in
        let kept : q y ≡ false = subst (λ z. q z ≡ false) (sym same) h in
        rw (kept, passes) (ap some same)
    | inr fails ↦
        let rest = find-left p q xs x h (ground (arith, e, fails)) in
        elim (Bool-cases (q y)) [ inl gone ↦ rw gone rest | inr kept ↦ rw (kept, fails) rest ]
  ]
