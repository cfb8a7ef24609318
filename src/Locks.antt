-- ===== src/Locks.antt =====
-- stdlib/_mutex.hpp and stdlib/shared_mutex.hpp: the lock objects `unique_lock` and `shared_lock`.
pub mod Handle
pub mod Balance
pub mod Unique
pub mod Shared
pub mod Accounts
pub mod SharedAccounts
pub mod Scope
