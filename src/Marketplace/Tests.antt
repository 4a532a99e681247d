-- ===== src/Marketplace/Tests.antt =====
-- The theorems on the marketplace at concrete stores: one listing of a seller, a buyer with shards.
mod Publish
mod Moderation
mod Titles
use ggumirror_be.Base.{◌≡◌, refl, ◌≢◌, sym, true, false, some, none, [], ◌∷◌, arith}
use ggumirror_be.Base.Int.{pos, neg, ◌+ℤ◌}
use ggumirror_be.Base.Text.{char_count, Text, codes, text_eqb, text_eq}
use ggumirror_be.Base.Dict.{get, insert}
use ggumirror_be.Base.Exec.{
  ok, err, is_ok, listing_not_found, moderated_listing, invalid_transition, terminal_listing,
}
use ggumirror_be.Canonical.{canonical, part, rest_parts, length, decimal, digits}
use ggumirror_be.Marketplace.Models.{
  Python, Listing, Snapshot, mirror, draft, published, active, removed, spam, ownership_id, like_id,
  listing_title_key, fee, fee_reason, purchase_reason, sale_reason, normalized_title,
  normalized_description, checked_price,
}
use ggumirror_be.Marketplace.Market.{
  Market, put_listing, market_transaction, put_shards, get_published, any_listing, own_listing,
  own_snapshot, ownership, is_public,
}
use ggumirror_be.Marketplace.Publish.{
  publish, publish_own, publish_charge, publish_commit, write_listing, claim_title,
  published_listing, publish_checks, is_blocked,
}
use ggumirror_be.Marketplace.Lifecycle.{
  DraftRequest, create_draft, checked_draft, content_type_of, create_snapshot, draft_of, delete,
  unpublish,
}
use ggumirror_be.Marketplace.Acquire.{
  acquire, with_download_count, bought, pay, pay_priced, pay_free,
}
use ggumirror_be.Marketplace.Likes.{like, unlike, with_like_count}
use ggumirror_be.Marketplace.Moderation.{takedown, restore, removed_listing}
use ggumirror_be.Marketplace.AcquireLaws.{CanBuy, purchase, acquire_moves, acquire_free}
use ggumirror_be.Marketplace.PublishLaws.{CanPublish, publish_charges, publish_again_free}
use ggumirror_be.Marketplace.ModerationLaws.{takedown_compensates, takedown_pays_once, held_listing}
use ggumirror_be.Marketplace.LikeLaws.{CanLike, liked, unlike-like}
use ggumirror_be.Marketplace.LifecycleLaws.{delete_is_final}
use ggumirror_be.Marketplace.Failures.{acquire_unchanged}
use ggumirror_be.Marketplace.Reach.{
  Reach, start, later, publishes, drafts, snapshots, empty_market, published_titles_unique, likes,
}
use ggumirror_be.Marketplace.Again.{Steps, unmoved, moved_on, told_again, acquire_again}
use ggumirror_be.Shards.Models.{reason_value, empty_wallet, marketplace_moderation_compensation}
use ggumirror_be.Shards.Keys.{idempotency_hash}
use ggumirror_be.Shards.Store.{
  empty_store, Change, wallet, apply, apply_new, write_change, changed_entry, changed_wallet,
  new_entry, moved_wallet, already_applied, quota_full, claim_conflict,
}
use ggumirror_be.Shards.Service.{moved, scoped_change}
use ggumirror_be.Shards.Scoped.{
  staged_write, scoped_wallet, apply_in_transaction, claim_wallet, member,
}
use ggumirror_be.Transaction.{commit, run_writes, within, add}
use ggumirror_be.Shards.Ledger.{IsSound, balance_of}
use ggumirror_be.Shards.Tests.{plain, alice, bob, grant, granted, granted-IsSound, alice≢bob}

-- Titles and contents are taken as they are.
abbrev py : Python
py = record { sha256 = plain; nfc = plain; strip = plain; casefold = plain }

abbrev l1 : Text
l1 = codes "l1"

abbrev on_sale : Listing
on_sale = record {
  id = l1;
  seller_user_id = bob;
  content_type = mirror;
  title = codes "mirror of gold";
  description = [];
  price_shards = pos 30;
  snapshot_id = codes "s1";
  status = published;
  publish_fee_paid = true;
  download_count = pos 4;
  like_count = pos 2;
  created_at = 1;
  updated_at = 2;
  published_at = some 2;
  moderation_status = active;
  moderation_reason = none;
  moderated_at = none;
  moderated_by = none;
}

abbrev content : Snapshot
content = record {
  id = codes "s1";
  seller_user_id = bob;
  content_type = mirror;
  manifest_checksum = codes "c";
  source_content_id = [];
  asset_count = 1;
  total_bytes = 10;
  created_at = 1;
}

abbrev store_with : Listing → Market
store_with l = record (empty_market granted) {
  listings = (l1, l) ∷ [];
  snapshots = (codes "s1", content) ∷ [];
}

abbrev market : Market
market = store_with on_sale

alice-CanBuy : CanBuy py l1 alice 12 market on_sale
unfolding apply apply_new claim_conflict already_applied quota_full get wallet empty_wallet ◌+ℤ◌
    write_change changed_wallet changed_entry moved_wallet new_entry insert balance_of
    idempotency_hash canonical part rest_parts length decimal digits reason_value text_eqb
    get_published is_public ownership_id purchase_reason sale_reason
alice-CanBuy = record {
  listed = refl;
  fresh = refl;
  priced = omega arith;
  movable = omega arith;
  can_pay = record {
    sound = granted-IsSound;
    other = alice≢bob;
    debit_free = refl;
    credit_free = refl;
    nonneg = omega arith;
    enough = omega arith;
  };
}

acquire_moves_example :
    let (r, m') = acquire py l1 alice 12 market in
    (r ≡ ok (purchase py l1 alice 12 market on_sale))
    × (balance_of m'.shards alice ≡ balance_of granted alice +ℤ neg (pos 30))
    × (balance_of m'.shards bob ≡ balance_of granted bob +ℤ pos 30)
    × ((v : Text) → v ≢ alice → v ≢ bob → balance_of m'.shards v ≡ balance_of granted v)
    × IsSound m'.shards
    × (ownership py m' l1 alice ≡ some (purchase py l1 alice 12 market on_sale).ownership)
    × (get l1 m'.listings ≡ some (with_download_count on_sale (pos 4 +ℤ pos 1)))
acquire_moves_example = acquire_moves py l1 alice 12 market on_sale alice-CanBuy

-- The buyer likes the listing after the purchase.
abbrev sold_and_liked : Market
sold_and_liked = (like py l1 alice 13 (acquire py l1 alice 12 market).1).1

abbrev liked_after : Steps py (acquire py l1 alice 12 market).1 sold_and_liked
liked_after = moved_on unmoved (likes l1 alice 13)

acquire_again_example : acquire py l1 alice 14 sold_and_liked ≡ (
  told_again sold_and_liked alice 14
      (purchase py l1 alice 12 market on_sale).ownership
      (get_published sold_and_liked l1),
  sold_and_liked,
)
acquire_again_example =
    acquire_again py l1 alice 12 14 market sold_and_liked on_sale alice-CanBuy liked_after

abbrev for_free : Listing
for_free = record on_sale { price_shards = pos 0 }

acquire_unchanged_example :
    (acquire py l1 alice 12 (store_with (record on_sale { price_shards = pos 101 }))).1
    ≡ store_with (record on_sale { price_shards = pos 101 })
unfolding acquire pay pay_priced scoped_change moved apply_in_transaction claim_wallet member ◌+ℤ◌
    neg apply apply_new claim_conflict already_applied quota_full get wallet empty_wallet
    write_change changed_wallet changed_entry moved_wallet new_entry insert idempotency_hash
    canonical part rest_parts length decimal digits reason_value text_eqb get_published is_public
    ownership_id purchase_reason sale_reason
acquire_unchanged_example =
    acquire_unchanged py l1 alice 12 (store_with (record on_sale { price_shards = pos 101 })) refl
