-- ===== src/Marketplace.antt =====
-- app/marketplace: listings that users sell for shards. `Models` has the data and the rules of the
-- fields, `Market` the in-memory store's state and reads, `Publish`, `Lifecycle`, `Acquire`,
-- `Likes` and `Moderation` its operations, each with the shard changes that it makes in the same
-- transaction. The other modules prove what the operations keep.
pub mod Models
pub mod Market
pub mod Publish
pub mod Lifecycle
pub mod Acquire
pub mod Likes
pub mod Moderation
pub mod AcquireLaws
pub mod Settling
pub mod Failures
pub mod Refusals
pub mod Titles
pub mod TitleSteps
pub mod TitleReach
pub mod Books
pub mod Unmoved
pub mod Owned
pub mod OwnedSales
pub mod Reach
pub mod Again
pub mod LikeLaws
pub mod PublishLaws
pub mod ModerationLaws
pub mod LifecycleLaws
pub mod Tests
