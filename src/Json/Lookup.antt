-- ===== src/Json/Lookup.antt =====
-- What is found in a dict under a key after another value is put.
use cloud_portfolio.Prelude.{
  ◌≡◌, refl, sym, ◌∙◌, false, some, Text, text_eq, text_eq_refl, text_eq_iff, Bool-cases, inl, inr,
  subst, ap, if◌then◌else◌,
}
use cloud_portfolio.Json.Data.{Value, Fields, end, field, get, put}

pub get-put : (k : Text) (v : Value) (d : Fields) → get k (put k v d) ≡ some v
unfolding get put
get-put k v end = rw (text_eq_refl k) refl
get-put k v (field j w d) = elim (Bool-cases (text_eq k j)) [
  | inl passes ↦ rw (passes, passes) refl
  | inr fails ↦ rw (fails, fails) (get-put k v d)
]

pub get-put_other :
    (i k : Text) (v : Value) (d : Fields) → text_eq i k ≡ false → get i (put k v d) ≡ get i d
unfolding get put
get-put_other i k v end h = rw h refl
get-put_other i k v (field j w d) h = elim (Bool-cases (text_eq k j)) [
  | inl passes ↦
      let differs : text_eq i j ≡ false =
        subst (λ t. text_eq i t ≡ false) ((text_eq_iff k j).0 passes) h in
      rw passes (
        ap (λ b. if b then some v else get i d) differs
        ∙ sym (ap (λ b. if b then some w else get i d) differs))
  | inr fails ↦ rw (fails, get-put_other i k v d h) refl
]
