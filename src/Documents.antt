-- ===== src/Documents.antt =====
-- The checklist of a client: the table client_documents, its queries and the life of a row.
pub mod Table
pub mod Queries
pub mod Rows
pub mod Transactions
pub mod Life
pub mod Agent
pub mod Runs
pub mod History
pub mod Approval
pub mod NewRows
pub mod Atomic
pub mod CompanyRows
pub mod SplitKept
pub mod SplitAtomic
mod Examples
