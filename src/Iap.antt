-- ===== src/Iap.antt =====
-- app/iap: shards sold through the App Store, their refunds, and Apple's notifications. models.py,
-- service.py, refunds.py and notifications.py. The verifier of Apple's signatures is a parameter.
pub mod Models
pub mod Service
pub mod Refunds
pub mod Notifications
pub mod Credits
pub mod Claims
pub mod Amounts
pub mod Recovery
pub mod Books
pub mod Tests
