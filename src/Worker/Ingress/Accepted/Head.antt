-- ===== src/Worker/Ingress/Accepted/Head.antt =====
-- The identifying fields of a dict that `_validate_ingress_payload` lets through.
use cloud_portfolio.Prelude.{
  ℕ, ◌≤◌, ◌≡◌, refl, ap, ◌∙◌, true, not, Option, some, [], ◌∷◌, Text, codes, arith, List, ◌++◌,
  is_some, All,
}
use cloud_portfolio.Errors.{ok, >>=-ok, raise_if}
use cloud_portfolio.Json.{Value, str, Fields, get, contains}
use cloud_portfolio.Json.Checks.{short_text, positive_bigint, or_raise, number, max_postgres_bigint}
use cloud_portfolio.Worker.Route.{Route, parse_route}
use cloud_portfolio.Worker.Ingress.{
  check_present, fill_alias, fill_aliases, Identity, check_identity, check_route,
}

pub positive_bigint-number :
    (n : ℕ) → 1 ≤ n → n ≤ max_postgres_bigint → positive_bigint (some (number n)) ≡ some n
unfolding positive_bigint
positive_bigint-number n h k = ground arith

fill_alias-present :
    (legacy canonical : Text) (d : Fields) (v : Value)
    → get legacy d ≡ some v
    → fill_alias legacy canonical d ≡ d
unfolding fill_alias
fill_alias-present legacy canonical d v h = rw (h, fill_alias) refl

-- The identifying fields of a dict, and what its route says.
pub record HasIdentity (d : Fields) (head : Identity) : Type 0 where
  pub parsed : Route
  pub request_id : get (codes "request_id") d ≡ some (str head.request_id)
  pub route : get (codes "route") d ≡ some (str head.route)
  pub room_id : get (codes "room_id") d ≡ some (number head.room_id)
  pub user_id : get (codes "user_id") d ≡ some (number head.user_id)
  pub request_text : short_text 80 (some (str head.request_id)) ≡ some head.request_id
  pub route_text : short_text 500 (some (str head.route)) ≡ some head.route
  pub room_bigint : positive_bigint (some (number head.room_id)) ≡ some head.room_id
  pub user_bigint : positive_bigint (some (number head.user_id)) ≡ some head.user_id
  pub parses : parse_route head.route ≡ some parsed
  pub checks : check_route d parsed head.room_id ≡ ok head.schema_version

pub or_raise-some {ℓ} :
    {A : Type ℓ} (o : Option A) (a : A) (message : Text) → o ≡ some a → or_raise o message ≡ ok a
or_raise-some o a message e = ap (λ o. or_raise o message) e

contains-found : (k : Text) (v : Value) (d : Fields) → get k d ≡ some v → contains k d ≡ true
contains-found k v d e = ap is_some e

check_present-ok :
    (d : Fields) (ks : List Text) → All (λ k. contains k d ≡ true) ks → check_present d ks ≡ ok tt
unfolding check_present
check_present-ok d [] h = refl
check_present-ok d (k ∷ ks) h =
    >>=-ok _ _ (ap (λ b. raise_if (not b) (codes "Ingress payload missing " ++ k)) h.0)
      (check_present-ok d ks h.1)

pub check_identity-ok :
    (d : Fields) (head : Identity) → HasIdentity d head → check_identity d ≡ ok head
unfolding check_identity
check_identity-ok d head h =
    >>=-ok
      (check_present d
        (codes "request_id" ∷ codes "route" ∷ codes "room_id" ∷ codes "user_id" ∷ []))
      _
      (check_present-ok d
        (codes "request_id" ∷ codes "route" ∷ codes "room_id" ∷ codes "user_id" ∷ [])
        (
          contains-found (codes "request_id") _ d h.request_id,
          (
            contains-found (codes "route") _ d h.route,
            (
              contains-found (codes "room_id") _ d h.room_id,
              (contains-found (codes "user_id") _ d h.user_id, tt),
            ),
          ),
        ))
      (>>=-ok (or_raise (short_text 80 (get (codes "request_id") d)) (codes "Invalid request_id")) _
        (or_raise-some _ _ _ (ap (short_text 80) h.request_id ∙ h.request_text))
        (>>=-ok (or_raise (short_text 500 (get (codes "route") d)) (codes "Invalid route")) _
          (or_raise-some _ _ _ (ap (short_text 500) h.route ∙ h.route_text))
          (>>=-ok (or_raise (positive_bigint (get (codes "room_id") d)) (codes "Invalid room_id")) _
            (or_raise-some _ _ _ (ap positive_bigint h.room_id ∙ h.room_bigint))
            (>>=-ok (or_raise (positive_bigint (get (codes "user_id") d)) (codes "Invalid user_id"))
              _ (or_raise-some _ _ _ (ap positive_bigint h.user_id ∙ h.user_bigint))
              (>>=-ok (or_raise (parse_route head.route) (codes "Invalid ingress route")) _
                (or_raise-some _ _ _ h.parses)
                (>>=-ok (check_route d h.parsed head.room_id) _ h.checks refl))))))

pub filled :
    (d : Fields) (head : Identity) (seq : Value)
    → HasIdentity d head
    → get (codes "room_seq") d ≡ some seq
    → fill_aliases d ≡ d
unfolding fill_aliases
filled d head seq h present =
    ap
      (λ x.
        fill_alias (codes "room_seq") (codes "stream_seq")
          (fill_alias (codes "user_id") (codes "actor_id") x))
      (fill_alias-present (codes "room_id") (codes "stream_id") d _ h.room_id)
    ∙ ap (fill_alias (codes "room_seq") (codes "stream_seq"))
        (fill_alias-present (codes "user_id") (codes "actor_id") d _ h.user_id)
    ∙ fill_alias-present (codes "room_seq") (codes "stream_seq") d _ present
