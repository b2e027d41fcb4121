-- ===== src/Tests.antt =====
-- Small inputs: the theorems applied to them, and runs that can be followed in the source.
mod Pure
mod Users
mod Posts
mod Access
mod Tags
mod Letters
mod Queries
mod Comments
mod Journals
mod Resets
mod Accounts
