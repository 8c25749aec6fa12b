-- ===== src/Json/Structure/Sound.antt =====
-- The loop of `validate_json_structure` against a plain recursion over the value.
use cloud_portfolio.Prelude.{
  ℕ, zero, suc, ◌+◌, ◌≤◌, ◌≡◌, ◌⊎◌, inl, inr, refl, ◌∙◌, Bool, true, false, ◌&&◌, not, ltb, List,
  [], ◌∷◌, leb, Text, has_nul, arith, subst,
}
use cloud_portfolio.Errors.{Result, ok, err, value_error, ◌>>=◌, ◌>>◌}
use cloud_portfolio.Json.Data.{
  Value, null, bool, int, float, str, arr, obj, Items, nil, cons, Fields, end, field, is_finite,
}
use cloud_portfolio.Json.Structure.{
  contains_utf16_surrogate, Entry, visit, leave, check_text, push_items, push_fields, visit_entry,
  walk, weight, weight_items, weight_fields, validate_json_structure,
}

unfoldable pub text_fits : Text → Bool
text_fits s = not (has_nul s) && not (contains_utf16_surrogate s)

-- No text with NUL or a surrogate, no float that is not finite, at most `limit` containers deep.
unfoldable mutual
  unfolding text_fits

  pub fits : ℕ → ℕ → Value → Bool
  fits limit depth (float bits repr) = is_finite bits
  fits limit depth (str s) = text_fits s
  fits limit depth (arr items) = leb (depth + 1) limit && fits_items limit (depth + 1) items
  fits limit depth (obj fields) = leb (depth + 1) limit && fits_fields limit (depth + 1) fields
  fits limit depth _ = true

  pub fits_items : ℕ → ℕ → Items → Bool
  fits_items limit depth nil = true
  fits_items limit depth (cons item items) = fits limit depth item && fits_items limit depth items

  pub fits_fields : ℕ → ℕ → Fields → Bool
  fits_fields limit depth end = true
  fits_fields limit depth (field key item fields) =
      text_fits key && (fits limit depth item && fits_fields limit depth fields)

entry_fits : ℕ → Entry → Bool
entry_fits limit (visit v depth) = fits limit depth v
entry_fits limit leave = true

stack_fits : ℕ → List Entry → Bool
unfolding entry_fits
stack_fits limit [] = true
stack_fits limit (e ∷ stack) = entry_fits limit e && stack_fits limit stack

entry_weight : Entry → ℕ
entry_weight (visit v depth) = weight v
entry_weight leave = 1

stack_weight : List Entry → ℕ
unfolding entry_weight
stack_weight [] = 0
stack_weight (e ∷ stack) = entry_weight e + stack_weight stack

-- A computation that returns exactly if the test holds, and else raises `ValueError`.
abbrev pub Decides {ℓ} : {A : Type ℓ} → Bool → Result A → Type 0
Decides b (ok a) = b ≡ true
Decides b (err (value_error message)) = b ≡ false
Decides b (err e) = ⊥

push_items-fits :
    (limit depth : ℕ) (items : Items) (stack : List Entry)
    → stack_fits limit (push_items items depth stack)
      ≡ (fits_items limit depth items && stack_fits limit stack)
unfolding push_items stack_fits fits
push_items-fits limit depth nil stack = refl
push_items-fits limit depth (cons item items) stack =
    ground (arith, push_items-fits limit depth items (visit item depth ∷ stack))

push_items-weight :
    (depth : ℕ) (items : Items) (stack : List Entry)
    → stack_weight (push_items items depth stack) ≡ weight_items items + stack_weight stack
unfolding push_items stack_weight weight
push_items-weight depth nil stack = omega arith
push_items-weight depth (cons item items) stack =
    omega (arith, push_items-weight depth items (visit item depth ∷ stack))

-- What a push of fields does, by how it ends.
abbrev Pushed : ℕ → ℕ → Fields → List Entry → Result (List Entry) → Type 0
Pushed limit depth fields stack (ok stack') =
    (stack_fits limit stack' ≡ (fits_fields limit depth fields && stack_fits limit stack))
    × (stack_weight stack' ≡ weight_fields fields + stack_weight stack)
Pushed limit depth fields stack (err (value_error message)) = fits_fields limit depth fields ≡ false
Pushed limit depth fields stack (err e) = ⊥

check_text-Decides : (s : Text) → Decides (text_fits s) (check_text s)
unfolding check_text text_fits
check_text-Decides s = ground arith

regroup_tests : (a b c t : Bool) → t ≡ true → (b && (a && c)) ≡ ((t && (a && b)) && c)
regroup_tests a b c t h = ground arith

field-Pushed :
    (limit depth : ℕ) (key : Text) (item : Value) (fields : Fields) (stack : List Entry)
    (r : Result (Unit {0})) (rest : Result (List Entry))
    → Decides (text_fits key) r
    → Pushed limit depth fields (visit item depth ∷ stack) rest
    → Pushed limit depth (field key item fields) stack (r >> rest)
unfolding stack_fits fits stack_weight weight
field-Pushed limit depth key item fields stack (ok u) (ok st) d p = (
  p.0
      ∙ regroup_tests (fits limit depth item) (fits_fields limit depth fields)
          (stack_fits limit stack) (text_fits key) d,
  omega (arith, p.1),
)
field-Pushed limit depth key item fields stack (ok u) (err (value_error m)) d p = ground arith
field-Pushed limit depth key item fields stack (ok u) (err e) d p = absurd p
field-Pushed limit depth key item fields stack (err (value_error m)) rest d p = ground arith
field-Pushed limit depth key item fields stack (err e) rest d p = absurd d

push_fields-Pushed :
    (limit depth : ℕ) (fields : Fields) (stack : List Entry)
    → Pushed limit depth fields stack (push_fields fields depth stack)
unfolding push_fields
push_fields-Pushed limit depth end stack =
    unfold stack_fits fits weight stack_weight in (refl, omega arith)
push_fields-Pushed limit depth (field key item fields) stack =
    field-Pushed limit depth key item fields stack (check_text key)
      (push_fields fields depth (visit item depth ∷ stack)) (check_text-Decides key)
      (push_fields-Pushed limit depth fields (visit item depth ∷ stack))

-- What one round does to the stack, by how it ends.
abbrev Visited : ℕ → Entry → List Entry → Result (List Entry) → Type 0
Visited limit entry stack (ok stack') =
    (stack_fits limit stack' ≡ (entry_fits limit entry && stack_fits limit stack))
    × (suc (stack_weight stack') ≡ entry_weight entry + stack_weight stack)
Visited limit entry stack (err (value_error message)) = entry_fits limit entry ≡ false
Visited limit entry stack (err e) = ⊥

text-Visited :
    (limit depth : ℕ) (s : Text) (stack : List Entry) (r : Result (Unit {0}))
    → Decides (text_fits s) r
    → Visited limit (visit (str s) depth) stack (r >> ok stack)
unfolding stack_fits fits stack_weight weight
text-Visited limit depth s stack (ok u) d = ground arith
text-Visited limit depth s stack (err (value_error m)) d = ground arith
text-Visited limit depth s stack (err e) d = absurd d

fields-Visited :
    (limit depth : ℕ) (fields : Fields) (stack : List Entry) (r : Result (List Entry))
    → leb (depth + 1) limit ≡ true
    → Pushed limit (depth + 1) fields (leave ∷ stack) r
    → Visited limit (visit (obj fields) depth) stack r
unfolding stack_fits fits stack_weight weight
fields-Visited limit depth fields stack (ok st) h p = (ground arith, omega arith)
fields-Visited limit depth fields stack (err (value_error m)) h p = ground arith
fields-Visited limit depth fields stack (err e) h p = absurd p

within_limit :
    (limit depth : ℕ)
    → (ltb limit depth ≡ true) × (leb depth limit ≡ false)
      ⊎ (ltb limit depth ≡ false) × (leb depth limit ≡ true)
within_limit limit depth = ground arith

visit_entry-Visited :
    (limit : ℕ) (entry : Entry) (stack : List Entry)
    → Visited limit entry stack (visit_entry limit entry stack)
unfolding visit_entry
visit_entry-Visited limit leave stack = unfold stack_fits stack_weight in (refl, omega arith)
visit_entry-Visited limit (visit (str s) depth) stack =
    text-Visited limit depth s stack (check_text s) (check_text-Decides s)
visit_entry-Visited limit (visit (float bits repr) depth) stack =
    unfold stack_fits fits stack_weight weight in ground arith
visit_entry-Visited limit (visit (arr items) depth) stack =
    unfold stack_fits fits stack_weight weight in
    ground (
      arith,
      push_items-fits limit (depth + 1) items (leave ∷ stack),
      push_items-weight (depth + 1) items (leave ∷ stack),
    )
visit_entry-Visited limit (visit (obj fields) depth) stack = elim (within_limit limit (depth + 1)) [
  | inl (over, deep) ↦ rw over (unfold fits entry_fits in rw deep refl)
  | inr (fine, shallow) ↦ rw fine (
      fields-Visited limit depth fields stack (push_fields fields (depth + 1) (leave ∷ stack))
        shallow (push_fields-Pushed limit (depth + 1) fields (leave ∷ stack)))
]
visit_entry-Visited limit (visit null depth) stack =
    unfold stack_fits fits stack_weight weight in ground arith
visit_entry-Visited limit (visit (bool b) depth) stack =
    unfold stack_fits fits stack_weight weight in ground arith
visit_entry-Visited limit (visit (int n) depth) stack =
    unfold stack_fits fits stack_weight weight in ground arith

Decides-eq {ℓ} : {A : Type ℓ} (b c : Bool) (r : Result A) → b ≡ c → Decides b r → Decides c r
Decides-eq b c r e d = rw (← e) d

after_visit :
    (limit fuel : ℕ) (entry : Entry) (stack : List Entry) (r : Result (List Entry))
    → ((st : List Entry)
        → stack_weight st ≤ fuel
        → Decides (stack_fits limit st) (walk limit fuel st))
    → entry_weight entry + stack_weight stack ≤ suc fuel
    → Visited limit entry stack r
    → Decides (stack_fits limit (entry ∷ stack)) (r >>= λ stack'. walk limit fuel stack')
unfolding stack_fits
after_visit limit fuel entry stack (ok st) ih h v =
    Decides-eq _ _ (walk limit fuel st) v.0 (ih st (omega arith))
after_visit limit fuel entry stack (err (value_error m)) ih h v = rw v refl
after_visit limit fuel entry stack (err e) ih h v = absurd v

entry_weight_pos : (entry : Entry) → 1 ≤ entry_weight entry
unfolding entry_weight weight
entry_weight_pos leave = omega arith
entry_weight_pos (visit (arr x) d) = omega arith
entry_weight_pos (visit (obj x) d) = omega arith
entry_weight_pos (visit _ d) = omega arith

walk-Decides :
    (limit fuel : ℕ) (stack : List Entry)
    → stack_weight stack ≤ fuel
    → Decides (stack_fits limit stack) (walk limit fuel stack)
unfolding walk stack_weight
walk-Decides limit zero [] h = unfold stack_fits in refl
walk-Decides limit (suc fuel) [] h = unfold stack_fits in refl
walk-Decides limit zero (e ∷ stack) h = absurd (omega (arith, entry_weight_pos e))
walk-Decides limit (suc fuel) (e ∷ stack) h =
    after_visit limit fuel e stack (visit_entry limit e stack) (λ st. walk-Decides limit fuel st) h
      (visit_entry-Visited limit e stack)

and_true : (b : Bool) → (b && true) ≡ b
and_true b = ground arith

-- On every value the loop ends, without running out of the rounds it is given: it returns exactly
-- for a value that fits (no text or key with a NUL or a surrogate, all floats finite, containers
-- nested at most `limit` deep), and else raises `ValueError`.
pub validate_json_structure-Decides :
    (limit : ℕ) (value : Value) → Decides (fits limit 0 value) (validate_json_structure limit value)
unfolding validate_json_structure
validate_json_structure-Decides limit value =
    unfold stack_fits in
    Decides-eq _ _ (walk limit (weight value) (visit value 0 ∷ [])) (and_true (fits limit 0 value))
      (walk-Decides limit (weight value) (visit value 0 ∷ []) (unfold stack_weight in omega arith))

-- A value that fits is let through, and one that is let through fits.
pub validate_json_structure-ok :
    (limit : ℕ) (value : Value)
    → fits limit 0 value ≡ true
    → validate_json_structure limit value ≡ ok tt
validate_json_structure-ok limit value h =
    decided (fits limit 0 value) (validate_json_structure limit value)
      (validate_json_structure-Decides limit value) h
  where
    decided : (b : Bool) (r : Result (Unit {0})) → Decides b r → b ≡ true → r ≡ ok tt
    decided b (ok u) d h = refl
    decided b (err (value_error m)) d h = cc
    decided b (err e) d h = absurd d

pub fits-validate_json_structure :
    (limit : ℕ) (value : Value)
    → validate_json_structure limit value ≡ ok tt
    → fits limit 0 value ≡ true
fits-validate_json_structure limit value e =
    subst (Decides (fits limit 0 value)) e (validate_json_structure-Decides limit value)
