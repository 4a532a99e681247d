-- ===== src/Ads.antt =====
-- app/ads: shards for a rewarded ad, on a callback that Google has signed.
pub mod Models
pub mod Service
pub mod Quota
pub mod Grants
mod Tests
