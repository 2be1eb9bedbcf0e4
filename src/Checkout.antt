-- ===== src/Checkout.antt =====
-- The checkout context, backend/app/modules/checkout.
pub mod Request
pub mod Inputs
pub mod Execute
pub mod Answers
pub mod Ends
pub mod Replay
pub mod Remembered
pub mod Recalled
pub mod Kept
pub mod Totals
pub mod Stock
pub mod Untouched
pub mod Announced
