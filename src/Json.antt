-- ===== src/Json.antt =====
-- JSON values as Python holds them after `json.loads`: trees of dicts, lists and scalars.
mod Data
pub mod Checks
pub mod Structure
unfoldable pub use Data.*
pub mod Lookup
pub mod Size
