-- ===== src/Web.antt =====
-- HTTP: what a route answers, who may call it, the routes of every module, and what holds of them.
pub mod Response
pub mod Access
pub mod Orders
pub mod Carts
pub mod Products
pub mod Identity
pub mod Operator
pub mod Requests
pub mod Denials
pub mod Failures
pub mod Sessions
