-- ===== src/Tests.antt =====
-- Runs of the model on small data: sample gifts and requests, and the theorems at them.
mod Samples
mod KeyStore
mod Gifts
mod Payouts
mod Collections
mod Entrances
mod Sendings
mod Guards
mod Sessions
mod Office
mod Deletion
mod Claims
mod Registrations
mod Cookies
mod Reviews
mod Guesses
mod Passwords
