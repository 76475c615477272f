-- ===== src/Db.antt =====
-- The store of db/: what its transactions and queries do to the tables.
pub mod Error
pub mod Tables
pub mod Monad
pub mod Queries
pub mod VoteQueries
pub mod Tx
pub mod Atomic
pub mod Insert
pub mod Inserts
pub mod Delete
pub mod Vote
pub mod Grows
pub mod Threads
pub mod Pruning
pub mod Tallies
pub mod Deletes
pub mod Deletion
pub mod Votes
pub mod Edits
pub mod Sound
pub mod Casting
pub mod Admission
pub mod Growth
pub mod Reachable
pub mod Users
pub mod Credentials
pub mod Farewell
pub mod Counters
pub mod Permission
