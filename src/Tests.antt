-- ===== src/Tests.antt =====
-- Tests and examples on concrete tables.
mod Data
mod System
mod Checkout
mod Deliveries
mod Stock
mod Tokens
mod Products
mod Accounts
mod Requests
mod Outbox
mod Charges
