-- ===== src/Worker/Route.antt =====
-- worker/main.py: `_INGRESS_ROUTE_RE`,
-- `^POST:/v(?P<version>[12])/(?P<resource>streams|orders)/(?P<stream_id>[1-9][0-9]*)/events$`.
pub mod Printed
use cloud_portfolio.Prelude.{
  ℕ, ◌+◌, ◌-◌, ◌*◌, ◌≡◌, refl, Bool, ◌&&◌, Option, none, some, [], ◌∷◌, leb, ◌==◌, if◌then◌else◌,
  Text, codes, text_eq,
}

pub data Version : Type 0 where
  v1 v2 : Version

pub data Resource : Type 0 where
  streams orders : Resource

pub record Route : Type 0 where
  pub version : Version
  pub resource : Resource
  pub stream_id : ℕ

-- What follows the prefix.
unfoldable pub strip : Text → Text → Option Text
strip [] s = some s
strip (p ∷ ps) [] = none
strip (p ∷ ps) (c ∷ s) = if p == c then strip ps s else none

abbrev is_digit : ℕ → Bool
is_digit c = leb b'0' c && leb c b'9'

-- `[0-9]*` and what follows it, which must be `/events`.
stream_digits : ℕ → Text → Option ℕ
unfolding text_eq
stream_digits n [] = none
stream_digits n (c ∷ s) =
    let more = stream_digits (n * 10 + (c - 48)) s in
    if is_digit c then more else if text_eq (c ∷ s) (codes "/events") then some n else none

-- `[1-9]` and the digits after it.
stream_number : Text → Option ℕ
unfolding stream_digits
stream_number [] = none
stream_number (c ∷ s) = if leb b'1' c && leb c b'9' then stream_digits (c - 48) s else none

with_stream : Version → Resource → Option ℕ → Option Route
with_stream v r none = none
with_stream v r (some n) = some (record { version = v; resource = r; stream_id = n })

route_resource : Version → Text → Option Route
unfolding with_stream stream_number strip
route_resource v s = elim (strip (codes "streams/") s) [
  | some rest ↦ with_stream v streams (stream_number rest)
  | none ↦ elim (strip (codes "orders/") s) [
    | some rest ↦ with_stream v orders (stream_number rest)
    | none ↦ none
  ]
]

unfoldable pub parse_route : Text → Option Route
unfolding route_resource strip
parse_route s = elim (strip (codes "POST:/v1/") s) [
  | some rest ↦ route_resource v1 rest
  | none ↦ elim (strip (codes "POST:/v2/") s) [ some rest ↦ route_resource v2 rest | none ↦ none ]
]

parse_route_example :
    parse_route (codes "POST:/v2/streams/407/events")
    ≡ some (record { version = v2; resource = streams; stream_id = 407 })
unfolding parse_route
parse_route_example = refl

parse_route_rejects :
    (parse_route (codes "POST:/v1/streams/07/events") ≡ none)
    × (parse_route (codes "POST:/v1/streams/7/events/") ≡ none)
    × (parse_route (codes "POST:/v3/streams/7/events") ≡ none)
unfolding parse_route
parse_route_rejects = (refl, refl, refl)
