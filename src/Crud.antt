-- ===== src/Crud.antt =====
-- app/crud.py: every write to the database, and the queries that go with them.
pub mod Events
pub mod Payments
pub mod Decisions
pub mod Transitions
pub mod Trail
unfoldable pub use Events.*
unfoldable pub use Payments.*
unfoldable pub use Decisions.*
unfoldable pub use Transitions.*
unfoldable pub use Trail.*
