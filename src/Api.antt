-- ===== src/Api.antt =====
-- The HTTP API: portfolio/api.py, with the checks of portfolio/schemas.py on what it is sent.
pub mod Answer
pub mod Schemas
pub mod Intake
pub mod Status
pub mod Dlq
pub mod Streams
pub mod Reading
pub mod Reset
