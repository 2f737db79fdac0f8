-- ===== src/Examples.antt =====
-- Concrete runs of the development: a toy hash, certificates and policies at which the theorems of the
-- other modules are applied.
pub mod Setup
mod Ledger
mod Authority
mod Gate
mod Policy
mod Status
mod Access
mod Service
mod Tokens
mod Bearer
mod Masks
mod Obligations
mod Log
mod Store
