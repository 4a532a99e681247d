-- ===== src/Ai.antt =====
-- app/ai: stickers that an image provider draws for shards. A job is a document beside the ledger:
-- models.py, prompt.py, the in-memory store of store.py, the in-memory storage of storage.py and the
-- service of service.py.
pub mod Models
pub mod Store
pub mod Prompt
pub mod Service
pub mod Jobs
pub mod Transitions
pub mod Leases
pub mod Refunds
pub mod Recovery
pub mod Generate
pub mod Lines
pub mod Made
pub mod JobBooks
pub mod Books
pub mod Mirror
pub mod Results
pub mod Tests
