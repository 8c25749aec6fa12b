-- ===== src/Store/Claim.antt =====
-- portfolio/state_store.py: the claims of automatic replays, rows of `intake_idempotency_keys` whose
-- `request_id` says who holds the claim. Each function is one transaction; the row locks order those
-- of concurrent replayers. The token that `uuid4` makes is an argument.
pub mod Lease
pub mod History
pub mod Exclusive
pub mod Published
use cloud_portfolio.Prelude.{
  ℕ, ◌+◌, Bool, true, false, ◌&&◌, ◌||◌, not, Option, none, some, List, [], ◌∷◌, ◌++◌, ltb,
  if◌then◌else◌, Text, codes, text_eq, starts_with, decimal,
}
use cloud_portfolio.Errors.{Error, Result, ok, err, value_error, ◌>>=◌, ◌>>◌}
use cloud_portfolio.Json.{Value, str, Fields, get}
use cloud_portfolio.Json.Checks.{short_text, counter_bigint, or_raise, number}
use cloud_portfolio.Json.Structure.{validate_json_structure, max_json_nesting_depth}
use cloud_portfolio.Database.Tables.{Database, IntakeKey}
use cloud_portfolio.Database.Find.{find, update_where, delete_where}
use cloud_portfolio.Store.Status.{load_request_status}

abbrev pub dlq_replay_claim_route : Text
dlq_replay_claim_route = codes "POST:/v1/dlq/ingress/replay"

abbrev pub dlq_replay_claim_lease_seconds : ℕ
dlq_replay_claim_lease_seconds = 30

-- `_validate_replay_claim_identity`; a generation is a natural number here.
validate_replay_claim_identity : Text → ℕ → Result (Unit {0})
unfolding short_text counter_bigint validate_json_structure
validate_replay_claim_identity request_id generation = do
  or_raise (short_text 80 (some (str request_id))) (codes "Invalid DLQ replay request_id") >>= λ _.
      ok tt
  validate_json_structure max_json_nesting_depth (str request_id)
  or_raise (counter_bigint (some (number generation))) (codes "Invalid DLQ replay generation")
      >>= λ _. ok tt

-- `_dlq_replay_claim_key`
pub dlq_replay_claim_key : Text → ℕ → Result Text
unfolding validate_replay_claim_identity decimal
dlq_replay_claim_key request_id generation =
    validate_replay_claim_identity request_id generation
    >> ok (request_id ++ (codes ":" ++ decimal generation))

validate_claim_token : Text → Text → Result (Unit {0})
unfolding validate_replay_claim_identity short_text validate_json_structure
validate_claim_token request_id owner_token = do
  validate_replay_claim_identity request_id 0
  or_raise (short_text 80 (some (str owner_token))) (codes "Invalid DLQ replay owner token")
      >>= λ _. ok tt
  validate_json_structure max_json_nesting_depth (str owner_token)

-- `_dlq_replay_claim_value`
pub dlq_replay_claim_value : Text → Text → Result Text
unfolding validate_claim_token
dlq_replay_claim_value request_id owner_token =
    validate_claim_token request_id owner_token
    >> ok (codes "claimed:" ++ (owner_token ++ (codes ":" ++ request_id)))

-- What `claim_dlq_replay` returns.
pub data ClaimState : Type 0 where
  claimed : Text → ClaimState
  persisted published in_progress : ClaimState

pub is_claim : Text → IntakeKey → Bool
unfolding text_eq
is_claim key row = text_eq row.route dlq_replay_claim_route && text_eq row.idem_key key

is_persisted_value : Option Value → Bool
unfolding text_eq
is_persisted_value (some (str s)) = text_eq s (codes "persisted")
is_persisted_value _ = false

pub is_persisted_status : Option Fields → Bool
unfolding get is_persisted_value
is_persisted_status none = false
is_persisted_status (some status) = is_persisted_value (get (codes "status") status)

pub claim_row : Text → Text → ℕ → IntakeKey
claim_row key value now = record {
  route = dlq_replay_claim_route;
  idem_key = key;
  request_id = value;
  created_at = now;
}

-- `created_at < NOW() - (lease * INTERVAL '1 second')`
pub is_expired : ℕ → IntakeKey → Bool
is_expired now row = ltb (row.created_at + dlq_replay_claim_lease_seconds) now

-- A value that is no claim counts as published.
pub is_published : Text → Bool
unfolding starts_with
is_published value =
    starts_with value (codes "published:") || not (starts_with value (codes "claimed:"))

-- The decision where a row of the key exists.
pub claim_existing : Text → Text → Text → ℕ → IntakeKey → Database → ClaimState × Database
unfolding is_published is_expired update_where is_claim claim_row
claim_existing key value token now row db =
    if is_published row.request_id
    then (published, db)
    else if is_expired now row
    then (
      claimed token,
      record db { intake = update_where (is_claim key) (λ r. claim_row key value now) db.intake },
    )
    else (in_progress, db)

claim_found : Text → Text → Text → ℕ → Database → Option IntakeKey → ClaimState × Database
unfolding claim_existing claim_row
claim_found key value token now db none =
    (claimed token, record db { intake = db.intake ++ claim_row key value now ∷ [] })
claim_found key value token now db (some row) = claim_existing key value token now row db

claim_key : Text → Text → Text → ℕ → Database → ClaimState × Database
unfolding find is_claim claim_found
claim_key key value token now db =
    claim_found key value token now db (find (is_claim key) db.intake)

pub claim_if_open : Text → Text → Text → Text → ℕ → Database → ClaimState × Database
unfolding load_request_status is_persisted_status claim_key
claim_if_open request_id key value token now db =
    if is_persisted_status (load_request_status request_id db)
    then (persisted, db)
    else claim_key key value token now db

-- `claim_dlq_replay`
unfoldable pub claim_dlq_replay : Text → ℕ → Text → ℕ → Database → Result (ClaimState × Database)
unfolding dlq_replay_claim_key dlq_replay_claim_value claim_if_open
claim_dlq_replay request_id generation token now db = do
  key ← dlq_replay_claim_key request_id generation
  value ← dlq_replay_claim_value request_id token
  ok (claim_if_open request_id key value token now db)

holds_claim : Text → Text → IntakeKey → Bool
unfolding is_claim text_eq
holds_claim key value row = is_claim key row && text_eq row.request_id value

mark_found : Text → Text → Text → ℕ → Database → Option IntakeKey → Bool × Database
unfolding holds_claim update_where claim_row
mark_found request_id key value now db none = (false, db)
mark_found request_id key value now db (some row) = (
  true,
  record db {
    intake =
        update_where (holds_claim key value)
          (λ r. claim_row key (codes "published:" ++ request_id) now) db.intake;
  },
)

mark_key : Text → Text → Text → ℕ → Database → Bool × Database
unfolding holds_claim find mark_found
mark_key request_id key value now db =
    mark_found request_id key value now db (find (holds_claim key value) db.intake)

-- `mark_dlq_replay_published`
unfoldable pub mark_dlq_replay_published : Text → ℕ → Text → ℕ → Database → Result (Bool × Database)
unfolding dlq_replay_claim_key dlq_replay_claim_value mark_key
mark_dlq_replay_published request_id generation token now db = do
  key ← dlq_replay_claim_key request_id generation
  value ← dlq_replay_claim_value request_id token
  ok (mark_key request_id key value now db)

pub release_key : Text → Text → Database → Database
unfolding holds_claim delete_where
release_key key value db = record db { intake = delete_where (holds_claim key value) db.intake }

-- `release_dlq_replay_claim`
unfoldable pub release_dlq_replay_claim : Text → ℕ → Text → Database → Result Database
unfolding dlq_replay_claim_key dlq_replay_claim_value release_key
release_dlq_replay_claim request_id generation token db = do
  key ← dlq_replay_claim_key request_id generation
  value ← dlq_replay_claim_value request_id token
  ok (release_key key value db)
