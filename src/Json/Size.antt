-- ===== src/Json/Size.antt =====
-- How many bytes a printed value takes at most.
use cloud_portfolio.Prelude.{◌+◌, ◌*◌, ◌≤◌, ◌≡◌, [], ◌∷◌, ◌++◌, Text, length, arith}
use cloud_portfolio.Json.Data.{utf8_size, escape}

pub utf8_size-append : (s t : Text) → utf8_size (s ++ t) ≡ utf8_size s + utf8_size t
unfolding utf8_size
utf8_size-append [] t = omega arith
utf8_size-append (c ∷ s) t = ground (arith, utf8_size-append s t)

-- An escaped character takes at most the six bytes of `\u00XX`.
pub utf8_size-escape : (s : Text) → utf8_size (escape s) ≤ 6 * length s + 1
unfolding utf8_size escape
utf8_size-escape [] = omega arith
utf8_size-escape (c ∷ s) = ground (arith, utf8_size-escape s)
