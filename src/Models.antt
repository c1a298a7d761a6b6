-- ===== src/Models.antt =====
-- app/models.py: the enumerations, the five tables and their columns, and the whole database.
-- A time is a number of microseconds since the epoch. A float is the bit pattern of its binary64.
-- A relationship attribute is a lookup by the foreign key. Left out: the free text of an audit row
-- (`reason`, `metadata_json`), and `updated_at` of a payment, which nothing reads.
pub mod Status
pub mod Rows
pub mod Integers
unfoldable pub use Status.*
pub use Rows.*
