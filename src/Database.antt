-- ===== src/Database.antt =====
-- The package `database`: entries and chains, one table, one sub-dictionary with its two tables,
-- and the dictionary of sub-dictionaries.
pub mod Entry
pub mod Table
pub mod Power
pub mod Sub
pub mod Hashing
pub mod Dick
pub mod Refines
pub mod Modes
pub mod Locks
pub mod Salt
