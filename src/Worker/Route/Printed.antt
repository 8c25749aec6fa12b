-- ===== src/Worker/Route/Printed.antt =====
-- The routes that the API prints are read back by `parse_route`.
use cloud_portfolio.Prelude.{
  ℕ, zero, suc, ◌+◌, ◌-◌, ◌*◌, ◌/◌, ◌%◌, ◌≤◌, ◌<◌, ◌≡◌, refl, ap, ◌∙◌, true, ◌&&◌, if-result,
  if-true, leb, ltb→lt, some, [], ◌∷◌, ◌++◌, ltb, Text, codes, decimal, arith, Bool-cases, inl, inr,
}
use cloud_portfolio.Prelude.{digits_onto, length, length-append, has_nul, ◌^◌, false}
use cloud_portfolio.Worker.Route.{
  v1, v2, streams, orders, parse_route, route_resource, with_stream, strip, stream_digits,
  stream_number,
}

digits_onto-append :
    (fuel n : ℕ) (rest s : Text) → digits_onto fuel n rest ++ s ≡ digits_onto fuel n (rest ++ s)
unfolding digits_onto
digits_onto-append zero n rest s = refl
digits_onto-append (suc fuel) n rest s = elim (Bool-cases (ltb n 10)) [
  | inl small ↦ rw small refl
  | inr large ↦ rw large (digits_onto-append fuel (n / 10) ((48 + n % 10) ∷ rest) s)
]

stream_number-digit :
    (n : ℕ) (rest : Text) → 1 ≤ n → n < 10 → stream_number ((48 + n) ∷ rest) ≡ stream_digits n rest
unfolding stream_number
stream_number-digit n rest h k =
    let start : (leb 49 (48 + n) && leb (48 + n) 57) ≡ true = ground arith in
    let value : 48 + n - 48 ≡ n = omega arith in
    if-true _ _ _ start ∙ ap (λ m. stream_digits m rest) value

stream_digits-digit :
    (n : ℕ) (rest : Text) → stream_digits (n / 10) ((48 + n % 10) ∷ rest) ≡ stream_digits n rest
unfolding stream_digits
stream_digits-digit n rest =
    let digit : (leb 48 (48 + n % 10) && leb (48 + n % 10) 57) ≡ true = ground arith in
    let value : n / 10 * 10 + (48 + n % 10 - 48) ≡ n = omega arith in
    if-true _ _ _ digit ∙ ap (λ m. stream_digits m rest) value

stream_number-digits :
    (fuel n : ℕ) (rest : Text)
    → 1 ≤ n
    → n < fuel
    → stream_number (digits_onto fuel n rest) ≡ stream_digits n rest
unfolding stream_number digits_onto stream_digits
stream_number-digits zero n rest h k = absurd (omega arith)
stream_number-digits (suc fuel) n rest h k =
    if-result (λ s. stream_number s ≡ stream_digits n rest) (ltb n 10) _ _
      (λ small. stream_number-digit n rest h (ltb→lt n 10 small))
      (λ large.
        stream_number-digits fuel (n / 10) ((48 + n % 10) ∷ rest) (ground arith) (ground arith)
        ∙ stream_digits-digit n rest)

-- The three routes, by version and resource.
abbrev events : Text
events = codes "/events"

stream_number-decimal : (n : ℕ) → 1 ≤ n → stream_number (decimal n ++ events) ≡ some n
unfolding decimal
stream_number-decimal n h =
    ap stream_number (digits_onto-append (suc n) n [] events)
    ∙ stream_number-digits (suc n) n events h (omega arith)
    ∙ unfold stream_digits in refl

pub parse_route-v1_streams :
    (n : ℕ)
    → 1 ≤ n
    → parse_route (codes "POST:/v1/streams/" ++ (decimal n ++ codes "/events"))
      ≡ some (record { version = v1; resource = streams; stream_id = n })
unfolding parse_route route_resource strip
parse_route-v1_streams n h = ap (with_stream v1 streams) (stream_number-decimal n h)

pub parse_route-v1_orders :
    (n : ℕ)
    → 1 ≤ n
    → parse_route (codes "POST:/v1/orders/" ++ (decimal n ++ codes "/events"))
      ≡ some (record { version = v1; resource = orders; stream_id = n })
unfolding parse_route route_resource strip
parse_route-v1_orders n h = ap (with_stream v1 orders) (stream_number-decimal n h)

pub parse_route-v2_streams :
    (n : ℕ)
    → 1 ≤ n
    → parse_route (codes "POST:/v2/streams/" ++ (decimal n ++ codes "/events"))
      ≡ some (record { version = v2; resource = streams; stream_id = n })
unfolding parse_route route_resource strip
parse_route-v2_streams n h = ap (with_stream v2 streams) (stream_number-decimal n h)

divided : {n : ℕ} (m : ℕ) → n < m * 10 → n / 10 < m
divided m h = omega (arith, h)

small_digit : (n : ℕ) → n < 10 → ltb n 10 ≡ true
small_digit n h = ground arith

length-digits :
    (fuel k n : ℕ) (rest : Text)
    → n < 10 ^ suc k
    → length (digits_onto fuel n rest) ≤ suc k + length rest
unfolding digits_onto
length-digits zero k n rest h = omega arith
length-digits (suc fuel) zero n rest h = rw (small_digit n h) (omega arith)
length-digits (suc fuel) (suc k) n rest h =
    if-result (λ s. length s ≤ suc (suc k) + length rest) (ltb n 10) ((48 + n) ∷ rest)
      (digits_onto fuel (n / 10) ((48 + n % 10) ∷ rest)) (λ small. omega arith)
      (λ large. omega (
        arith,
        length-digits fuel k (n / 10) ((48 + n % 10) ∷ rest)
            (divided (10 ^ suc k) (omega (arith, h))),
      ))

has_nul-append : (s t : Text) → has_nul s ≡ false → has_nul t ≡ false → has_nul (s ++ t) ≡ false
unfolding has_nul
has_nul-append [] t h k = k
has_nul-append (c ∷ s) t h k = ground (arith, has_nul-append s t)

has_nul-digits :
    (fuel n : ℕ) (rest : Text) → has_nul rest ≡ false → has_nul (digits_onto fuel n rest) ≡ false
unfolding digits_onto
has_nul-digits zero n rest h = h
has_nul-digits (suc fuel) n rest h =
    if-result (λ s. has_nul s ≡ false) (ltb n 10) _ _ (λ small. unfold has_nul in ground (arith, h))
      (λ large.
        has_nul-digits fuel (n / 10) ((48 + n % 10) ∷ rest) (unfold has_nul in ground (arith, h)))

pub length-decimal : (n : ℕ) → n < 10 ^ 19 → length (decimal n) ≤ 19
unfolding decimal
length-decimal n h = length-digits (suc n) 18 n [] h

pub has_nul-decimal : (n : ℕ) → has_nul (decimal n) ≡ false
unfolding decimal
has_nul-decimal n = has_nul-digits (suc n) n [] (unfold has_nul in refl)

-- A printed route is short, and has no NUL.
pub length-route :
    (prefix : Text) (n : ℕ)
    → n < 10 ^ 19
    → length (prefix ++ (decimal n ++ events)) ≤ length prefix + 26
length-route prefix n h = omega (
  arith,
  length-append prefix (decimal n ++ events),
  length-append (decimal n) events,
  length-decimal n h,
)

pub has_nul-route :
    (prefix : Text) (n : ℕ)
    → has_nul prefix ≡ false
    → has_nul (prefix ++ (decimal n ++ events)) ≡ false
has_nul-route prefix n h =
    has_nul-append prefix (decimal n ++ events) h
      (has_nul-append (decimal n) events (has_nul-decimal n) (unfold has_nul in refl))
