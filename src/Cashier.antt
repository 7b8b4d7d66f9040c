-- ===== src/Cashier.antt =====
-- The cash book: back/src/modules/cashier.
pub mod Config
pub mod Discount
pub mod Payment
pub mod Store
pub mod Totals
pub mod Sessions
pub mod Entries
pub mod Corrections
pub mod Installments
pub mod Commands
