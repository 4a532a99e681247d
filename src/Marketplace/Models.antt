-- ===== src/Marketplace/Models.antt =====
-- app/marketplace/models.py, and the notification record of app/notifications/models.py.
use ggumirror_be.Base.{ℕ, Bool, true, false, ◌||◌, Option, [], ◌∷◌, ltb}
use ggumirror_be.Base.Int.{ℤ, pos, ltb_ℤ, leb_ℤ}
use ggumirror_be.Base.Text.{Text, codes, char_count}
use ggumirror_be.Base.Exec.{Result, ok, ◌>>◌, raise_if, invalid_listing}
use ggumirror_be.Canonical.{canonical}
use ggumirror_be.Shards.Models.{
  ShardReason, mirror_publish_fee, sticker_publish_fee, mirror_purchase, sticker_purchase,
  mirror_sale, sticker_sale,
}

-- What the code takes from Python: `hashlib.sha256(…).hexdigest()`, `unicodedata.normalize("NFC", …)`,
-- `str.strip` and `str.casefold`.
pub record Python : Type 0 where
  pub sha256 : Text → Text
  pub nfc : Text → Text
  pub strip : Text → Text
  pub casefold : Text → Text

pub data ContentType : Type 0 where
  mirror sticker : ContentType

unfoldable pub content_value : ContentType → Text
content_value mirror = codes "mirror"
content_value sticker = codes "sticker"

pub data ListingStatus : Type 0 where
  draft published unlisted deleted : ListingStatus

abbrev pub is_terminal : ListingStatus → Bool
is_terminal deleted = true
is_terminal _ = false

abbrev pub is_published : ListingStatus → Bool
is_published published = true
is_published _ = false

abbrev pub is_draft : ListingStatus → Bool
is_draft draft = true
is_draft _ = false

pub data ModerationStatus : Type 0 where
  active removed : ModerationStatus

pub data ModerationReason : Type 0 where
  inappropriate spam copyright other : ModerationReason

pub data ModerationAction : Type 0 where
  takedown_action restore_action : ModerationAction

pub record Listing : Type 0 where
  pub id : Text
  pub seller_user_id : Text
  pub content_type : ContentType
  pub title : Text
  pub description : Text
  pub price_shards : ℤ
  pub snapshot_id : Text
  pub status : ListingStatus
  pub publish_fee_paid : Bool
  pub download_count : ℤ
  pub like_count : ℤ
  pub created_at : ℕ
  pub updated_at : ℕ
  pub published_at : Option ℕ
  pub moderation_status : ModerationStatus
  pub moderation_reason : Option ModerationReason
  pub moderated_at : Option ℕ
  pub moderated_by : Option Text

abbrev pub is_removed : ModerationStatus → Bool
is_removed removed = true
is_removed active = false

abbrev pub is_moderated : Listing → Bool
is_moderated l = is_removed l.moderation_status

pub record Snapshot : Type 0 where
  pub id : Text
  pub seller_user_id : Text
  pub content_type : ContentType
  pub manifest_checksum : Text
  pub source_content_id : Text
  pub asset_count : ℕ
  pub total_bytes : ℕ
  pub created_at : ℕ

pub record Ownership : Type 0 where
  pub id : Text
  pub user_id : Text
  pub listing_id : Text
  pub seller_user_id : Text
  pub snapshot_id : Text
  pub price_paid : ℤ
  pub buyer_ledger_entry_id : Option Text
  pub seller_ledger_entry_id : Option Text
  pub created_at : ℕ

pub record Like : Type 0 where
  pub id : Text
  pub user_id : Text
  pub listing_id : Text
  pub created_at : ℕ

pub record ModerationEvent : Type 0 where
  pub id : Text
  pub listing_id : Text
  pub content_type : ContentType
  pub action : ModerationAction
  pub actor_user_id : Text
  pub reason : Option ModerationReason
  pub note : Text
  pub created_at : ℕ

pub data NotificationType : Type 0 where
  marketplace_sale marketplace_takedown mirror_digest recommendation unknown : NotificationType

-- `NotificationEvent`; the wording of a takedown is told by its reason and the shards it paid.
pub record NotificationEvent : Type 0 where
  pub id : Text
  pub user_id : Text
  pub kind : NotificationType
  pub listing_id : Text
  pub content_type : Text
  pub title_snapshot : Text
  pub shard_amount : ℤ
  pub takedown_reason : Option ModerationReason
  pub takedown_paid : ℤ
  pub created_at : ℕ
  pub read_at : Option ℕ

-- `MarketplacePublishPolicy`
abbrev pub moderation_compensation : ℕ
moderation_compensation = 5

unfoldable pub fee : ContentType → ℕ
fee mirror = 10
fee sticker = 10

unfoldable pub fee_reason : ContentType → ShardReason
fee_reason mirror = mirror_publish_fee
fee_reason sticker = sticker_publish_fee

unfoldable pub purchase_reason : ContentType → ShardReason
purchase_reason mirror = mirror_purchase
purchase_reason sticker = sticker_purchase

unfoldable pub sale_reason : ContentType → ShardReason
sale_reason mirror = mirror_sale
sale_reason sticker = sticker_sale

module _ (py : Python) where
  open py use {sha256, nfc, strip, casefold}

  unfoldable pub listing_title_key : Text → Text
  listing_title_key raw = casefold (strip (nfc raw))

  unfoldable pub ownership_id : Text → Text → Text
  ownership_id user listing =
      sha256 (canonical (codes "marketplace_ownership" ∷ user ∷ listing ∷ []))

  unfoldable pub like_id : Text → Text → Text
  like_id user listing = sha256 (canonical (codes "marketplace_like" ∷ user ∷ listing ∷ []))

  unfoldable pub moderation_block_id : Text → Text → Text → Text
  moderation_block_id seller content source =
      sha256 (canonical (codes "marketplace_moderation_block" ∷ seller ∷ content ∷ source ∷ []))

  unfoldable pub sale_event_id : Text → Text
  sale_event_id ownership = sha256 (canonical (codes "notification_sale" ∷ ownership ∷ []))

  unfoldable pub takedown_event_id : Text → Text
  takedown_event_id listing = sha256 (canonical (codes "notification_takedown" ∷ listing ∷ []))

abbrev is_empty : Text → Bool
is_empty [] = true
is_empty (b ∷ t) = false

module _ (py : Python) where
  unfoldable pub normalized_title : Text → Result Text
  normalized_title raw = do
    let title = py.strip raw
    raise_if (is_empty title || ltb 24 (char_count title)) invalid_listing
    ok title

  unfoldable pub normalized_description : Text → Result Text
  normalized_description raw = do
    let description = py.strip raw
    raise_if (ltb 200 (char_count description)) invalid_listing
    ok description

  unfoldable pub checked_note : Text → Result Text
  checked_note raw = do
    let note = py.strip raw
    raise_if (ltb 200 (char_count note)) invalid_listing
    ok note

-- `price in range(0, 1000)`
unfoldable pub checked_price : ℤ → Result ℤ
checked_price price = do
  raise_if (ltb_ℤ price (pos 0) || leb_ℤ (pos 1000) price) invalid_listing
  ok price
