-- ===== src/Api/Answer.antt =====
-- portfolio/api.py: what an endpoint answers, and the call by which the API sends to the ingress topic.
use cloud_portfolio.Prelude.{
  ℕ, ◌≡◌, Bool, true, false, [], ◌∷◌, ◌++◌, Text, codes, text_eq, if◌then◌else◌,
}
use cloud_portfolio.Errors.{
  Error, Result, ok, err, operational_error, interface_error, other_error, http_exception,
}
use cloud_portfolio.Json.{Fields}
use cloud_portfolio.Worker.Outbox.{Send, acknowledged, refused, unanswered}
use cloud_portfolio.Worker.World.{World}

-- `HTTPException(status_code, detail)`, or an exception that no handler of the endpoint catches.
pub data Failure : Type 0 where
  http : ℕ → Text → Failure
  uncaught : Error → Failure

pub data Answer (A : Type 0) : Type 0 where
  done : A → Answer A
  failed : Failure → Answer A

infixl 5 ◌>>=◌
abbrev pub ◌>>=◌ : {A B : Type 0} → Answer A → (A → Answer B) → Answer B
done a >>= next = next a
failed f >>= next = failed f

-- `publish_ingress_job`: an exception may be raised although the record is in the topic.
unfoldable pub publish_ingress_job : Send → ℕ → Fields → World → Result (Unit {0}) × World
publish_ingress_job acknowledged key payload w =
    (ok tt, record w { ingress = w.ingress ++ (key, payload) ∷ [] })
publish_ingress_job (refused e) key payload w = (err e, w)
publish_ingress_job (unanswered e) key payload w =
    (err e, record w { ingress = w.ingress ++ (key, payload) ∷ [] })

-- `except (OperationalError, InterfaceError, PoolError)`
unfoldable pub is_unavailable : Error → Bool
unfolding text_eq
is_unavailable operational_error = true
is_unavailable interface_error = true
is_unavailable (other_error name) = text_eq name (codes "PoolError")
is_unavailable _ = false

-- What an exception of an endpoint's database block becomes: `HTTPException` passes, the errors of the
-- connection are answered with 503, others are not caught.
failure_of : Text → Error → Failure
unfolding is_unavailable
failure_of detail (http_exception status message) = http status message
failure_of detail e = if is_unavailable e then http 503 detail else uncaught e

unfoldable pub answer_of {ℓ} : {S : Type ℓ} → {A : Type 0} → Text → Result A × S → Answer A × S
unfolding failure_of
answer_of detail (ok a, s) = (done a, s)
answer_of detail (err e, s) = (failed (failure_of detail e), s)

pub answer_of-done {ℓ} :
    {S : Type ℓ} {A : Type 0} (detail : Text) (p : Result A × S) (a : A) (s : S)
    → answer_of detail p ≡ (done a, s)
    → p ≡ (ok a, s)
unfolding answer_of
answer_of-done detail (ok b, t) a s h = cc
answer_of-done detail (err e, t) a s h = cc
