-- ===== src/Tests.antt =====
-- Concrete runs: the theorems of the library applied to examples.
mod CashBook
mod Orders
mod Payments
mod Expenses
mod Receivables
mod Access
mod Shop
mod Rents
mod Replay
mod Bills
mod Garage
mod Pulls
mod Ranking
