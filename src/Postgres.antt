-- ===== src/Postgres.antt =====
-- pkg/store/postgres/postgres.go over schema/postgres.sql: `Tables` has the rows and what a
-- statement can do, `Physical`, `Facts` and `Projections` the operations of Store on the three
-- tables, and their children what these keep.
pub mod Tables
pub mod Statements
pub mod Physical
pub mod Facts
pub mod Projections
pub mod Locked
