-- ===== src/Shards.antt =====
-- app/shards: the ledger of mirror shards. `Models` has the wallet, the ledger entry and the
-- documents, `Store` the in-memory store's `apply`, `Refund` its refunds, `Scoped` the changes
-- that wait in a caller's transaction, `Guest` the hand-over of a guest's wallet, `Service` the
-- checked entry points, `Attendance` the daily reward. The proofs are in the modules below these.
pub mod Models
pub mod Store
pub mod Refund
pub mod Scoped
pub mod Keys
pub mod Guest
pub mod Service
pub mod Attendance
pub mod Ledger
pub mod ApplyLaws
pub mod RefundLaws
pub mod RefundOnce
pub mod Reversal
pub mod Once
pub mod ScopedLaws
pub mod Transfer
pub mod Staging
pub mod Waiting
pub mod GuestLaws
pub mod AttendanceLaws
pub mod ServiceLaws
pub mod Payments
pub mod Tests
