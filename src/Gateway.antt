-- ===== src/Gateway.antt =====
-- apps/gateway/internal/handler: what a request may spend, and what the handlers answer.
pub mod Budget
pub mod Window
pub mod Ask
pub mod Ceiling
pub mod Read
pub mod Answering
pub mod Honest
pub mod Served
pub mod Views
pub mod Symbols
pub mod Cited
pub mod Shown
pub mod CallersRoute
pub mod Submit
pub mod Submitted
mod Tests
mod ReadTests
mod SymbolTests
