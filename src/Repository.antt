-- ===== src/Repository.antt =====
-- internal/repository: what each method does to the tables. A method is one statement or one
-- transaction, so it is a function of the database that fails and changes nothing, or gives its
-- result and the new database; `db_call` adds that the call itself may fail.
pub mod Statement
pub mod Kept
pub mod Sound
pub mod Images
pub mod Instances
pub mod Tasks
pub mod Snapshots
pub mod Volumes
pub mod FloatingIps
pub mod Destroy
pub mod Accounts
pub mod Hosts
pub mod Networks
pub mod Create
pub mod Claims
pub mod Pools
