-- ===== src/Database.antt =====
-- The tables of PostgreSQL that the worker reads and writes (alembic/versions), and transactions.
-- A list holds the rows of a table in the order of their insertion.
pub mod Tables
pub mod Tx
pub mod Find
pub mod Session
pub mod Untouched
