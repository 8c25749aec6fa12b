-- ===== src/Store.antt =====
-- portfolio/state_store.py: the statuses of requests, and the claims of automatic replays.
pub mod Status
pub mod Claim
