-- ===== src/Tests.antt =====
-- Concrete runs, and the properties at concrete inputs.
mod Session
mod Auth
mod Access
mod Caches
mod Home
mod Publishing
mod Locks
mod Checks
mod Polls
mod Devices
mod Checkout
mod Community
mod Accounts
mod BotLogin
