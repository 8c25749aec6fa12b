-- ===== src/Json/Structure/Names.antt =====
-- The names of generic events have no NUL.
use cloud_portfolio.Prelude.{◌≡◌, refl, true, false, [], ◌∷◌, Text, has_nul, arith}
use cloud_portfolio.Json.Structure.{
  is_alphanumeric, is_name_character, all_characters, is_generic_event_type,
}

all_characters-no_nul : (s : Text) → all_characters is_name_character s ≡ true → has_nul s ≡ false
unfolding all_characters is_name_character is_alphanumeric has_nul
all_characters-no_nul [] h = refl
all_characters-no_nul (c ∷ s) h = ground (arith, all_characters-no_nul s)

pub is_generic_event_type-no_nul : (s : Text) → is_generic_event_type s ≡ true → has_nul s ≡ false
unfolding is_generic_event_type is_alphanumeric has_nul
is_generic_event_type-no_nul [] h = refl
is_generic_event_type-no_nul (c ∷ s) h = ground (arith, all_characters-no_nul s)
