-- ===== src/Marketplace/Market.antt =====
-- app/marketplace/store.py: the state of `InMemoryMarketplaceStore` with the shard store that it
-- shares a transaction with and the notifications that it writes, and its reads.
use ggumirror_be.Base.{
  Bool, true, false, not, ◌&&◌, Option, none, some, List, [], ◌∷◌, ◌++◌, map, if◌then◌else◌,
}
use ggumirror_be.Base.Text.{Text, text_eq, ◌==◌}
use ggumirror_be.Base.Dict.{Dict, get, insert, erase, values}
use ggumirror_be.Base.Exec.{Result, ok, err, listing_not_found, snapshot_not_found}
use ggumirror_be.Marketplace.Models.{
  Python, Listing, is_moderated, is_published, Snapshot, Ownership, Like, ModerationEvent,
  NotificationEvent, listing_title_key, ownership_id,
}
use ggumirror_be.Shards.Store.{ShardStore}
use ggumirror_be.Transaction.{Write, InMemoryTransaction, within}

pub record Market : Type 0 where
  pub listings : Dict Text Listing
  pub snapshots : Dict Text Snapshot
  pub ownership_records : Dict Text Ownership
  pub likes_by_id : Dict Text Like
  pub moderation_event_log : List ModerationEvent
  pub title_claims : Dict Text Text
  pub moderation_blocks : Dict Text Text
  pub notifications : Dict Text NotificationEvent
  pub shards : ShardStore

abbrev is_some : {A : Type 0} → Option A → Bool
is_some none = false
is_some (some a) = true

-- `_is_public`
unfoldable pub is_public : Listing → Bool
is_public l = not (is_moderated l) && is_published l.status && is_some l.published_at

abbrev pub owned : Text → Option Listing → Result Listing
owned seller none = err listing_not_found
owned seller (some l) = if l.seller_user_id == seller then ok l else err listing_not_found

-- `listing`
unfoldable pub own_listing : Market → Text → Text → Result Listing
own_listing m id seller = owned seller (get id m.listings)

abbrev pub owned_snapshot : Text → Option Snapshot → Result Snapshot
owned_snapshot seller none = err snapshot_not_found
owned_snapshot seller (some x) = if x.seller_user_id == seller then ok x else err snapshot_not_found

-- `snapshot`
unfoldable pub own_snapshot : Market → Text → Text → Result Snapshot
own_snapshot m id seller = owned_snapshot seller (get id m.snapshots)

abbrev pub if_public : Option Listing → Result Listing
if_public none = err listing_not_found
if_public (some l) = if is_public l then ok l else err listing_not_found

unfoldable pub get_published : Market → Text → Result Listing
get_published m id = if_public (get id m.listings)

abbrev pub or_not_found : Option Listing → Result Listing
or_not_found none = err listing_not_found
or_not_found (some l) = ok l

unfoldable pub any_listing : Market → Text → Result Listing
any_listing m id = or_not_found (get id m.listings)

-- `[x for x in xs if keep(x)]`
unfoldable pub filter : {A : Type 0} → (A → Bool) → List A → List A
filter keep [] = []
filter keep (x ∷ xs) = let rest = filter keep xs in if keep x then x ∷ rest else rest

unfoldable pub list_published : Market → List Listing
list_published m = filter is_public (values m.listings)

unfoldable pub list_for_seller : Market → Text → List Listing
list_for_seller m seller = filter (λ l. l.seller_user_id == seller) (values m.listings)

unfoldable pub ownerships : Market → Text → List Ownership
ownerships m u = filter (λ o. o.user_id == u) (values m.ownership_records)

unfoldable pub ownership : Python → Market → Text → Text → Option Ownership
ownership py m listing u = get (ownership_id py u listing) m.ownership_records

unfoldable pub likes : Market → Text → List Like
likes m u = filter (λ x. x.user_id == u) (values m.likes_by_id)

unfoldable pub moderation_events : Market → Text → List ModerationEvent
moderation_events m id = filter (λ e. e.listing_id == id) m.moderation_event_log

abbrev found_snapshot : Option Snapshot → Result Snapshot
found_snapshot none = err snapshot_not_found
found_snapshot (some x) = ok x

-- The delivery's read does not ask for the owner.
unfoldable pub snapshot_for_delivery : Market → Text → Result Snapshot
snapshot_for_delivery m id = found_snapshot (get id m.snapshots)

unfoldable pub put_shards : ShardStore → Market → Market
put_shards s m = record m { shards = s }

-- The writes of a transaction: the shard changes that wait, and then the market's own.
unfoldable pub market_transaction :
    List (Write ShardStore) → List (Write Market) → InMemoryTransaction Market
market_transaction shard_writes writes = record {
  writes = map (within (λ m. m.shards) put_shards) shard_writes ++ writes;
  commits = 0;
}

-- `_release_title`
abbrev pub released : Text → Text → Option Text → Dict Text Text → Dict Text Text
released key id none claims = claims
released key id (some owner) claims = if owner == id then erase key claims else claims

unfoldable pub release_title : Python → Listing → Market → Market
release_title py l m =
    let key = listing_title_key py l.title in
    record m { title_claims = released key l.id (get key m.title_claims) m.title_claims }

unfoldable pub put_listing : Listing → Market → Market
put_listing l m = record m { listings = insert l.id l m.listings }
