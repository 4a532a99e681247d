-- ===== src/Marketplace/Lifecycle.antt =====
-- app/marketplace/service.py, `create_draft`, and app/marketplace/store.py, `create`, `unpublish`,
-- `delete` and `create_snapshot`: the steps of a listing's life that move no shards.
use ggumirror_be.Base.{ℕ, false, none, if◌then◌else◌}
use ggumirror_be.Base.Int.{ℤ, pos}
use ggumirror_be.Base.Text.{Text, codes, text_eq, ◌==◌}
use ggumirror_be.Base.Dict.{insert, contains}
use ggumirror_be.Base.Exec.{Result, ok, err, ◌>>=◌, snapshot_not_found, invalid_listing}
use ggumirror_be.Marketplace.Models.{
  Python, ContentType, mirror, sticker, Listing, Snapshot, draft, unlisted, deleted, is_published,
  is_terminal, active, normalized_title, normalized_description, checked_price,
}
use ggumirror_be.Marketplace.Market.{Market, own_listing, own_snapshot, release_title, put_listing}

-- `ContentType(value)`
unfoldable pub content_type_of : Text → Result ContentType
content_type_of t =
    if t == codes "mirror"
    then ok mirror
    else if t == codes "sticker"
    then ok sticker
    else err invalid_listing

pub record DraftRequest : Type 0 where
  pub content_type : Text
  pub title : Text
  pub description : Text
  pub price_shards : ℤ
  pub snapshot_id : Text

unfoldable pub draft_of : Text → Text → DraftRequest → ContentType → Text → Text → ℤ → ℕ → Listing
draft_of fresh seller r kind title description price now = record {
  id = fresh;
  seller_user_id = seller;
  content_type = kind;
  title = title;
  description = description;
  price_shards = price;
  snapshot_id = r.snapshot_id;
  status = draft;
  publish_fee_paid = false;
  download_count = pos 0;
  like_count = pos 0;
  created_at = now;
  updated_at = now;
  published_at = none;
  moderation_status = active;
  moderation_reason = none;
  moderated_at = none;
  moderated_by = none;
}

-- The checks of `create_draft`, in its order.
unfoldable pub checked_draft : Python → Market → Text → Text → DraftRequest → ℕ → Result Listing
checked_draft py m fresh seller r now = do
  kind ← content_type_of r.content_type
  x ← own_snapshot m r.snapshot_id seller
  title ← normalized_title py r.title
  description ← normalized_description py r.description
  price ← checked_price r.price_shards
  ok (draft_of fresh seller r kind title description price now)

abbrev pub created : Market → Result Listing → Result Listing × Market
created m (err e) = (err e, m)
created m (ok l) = (ok l, put_listing l m)

unfoldable pub create_draft :
    Python → Text → Text → DraftRequest → ℕ → Market → Result Listing × Market
create_draft py fresh seller r now m = created m (checked_draft py m fresh seller r now)

unfoldable pub unlisted_listing : Listing → ℕ → Listing
unlisted_listing l now = record l { status = unlisted; updated_at = now }

abbrev pub unpublish_own : Python → Market → ℕ → Result Listing → Result Listing × Market
unpublish_own py m now (err e) = (err e, m)
unpublish_own py m now (ok l) =
    if is_published l.status
    then (ok (unlisted_listing l now), release_title py l (put_listing (unlisted_listing l now) m))
    else (ok l, m)

unfoldable pub unpublish : Python → Text → Text → ℕ → Market → Result Listing × Market
unpublish py id seller now m = unpublish_own py m now (own_listing m id seller)

unfoldable pub deleted_listing : Listing → ℕ → Listing
deleted_listing l now = record l { status = deleted; updated_at = now }

abbrev pub delete_own : Python → Market → ℕ → Result Listing → Result Listing × Market
delete_own py m now (err e) = (err e, m)
delete_own py m now (ok l) =
    if is_terminal l.status
    then (ok l, m)
    else (ok (deleted_listing l now), release_title py l (put_listing (deleted_listing l now) m))

unfoldable pub delete : Python → Text → Text → ℕ → Market → Result Listing × Market
delete py id seller now m = delete_own py m now (own_listing m id seller)

-- `create_snapshot`: the place of a snapshot is written once.
unfoldable pub create_snapshot : Snapshot → Market → Result Snapshot × Market
create_snapshot x m =
    if contains x.id m.snapshots
    then (err snapshot_not_found, m)
    else (ok x, record m { snapshots = insert x.id x m.snapshots })
