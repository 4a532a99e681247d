-- ===== src/Marketplace/Tests/Titles.antt =====
-- A market that three calls reach.
use ggumirror_be.Base.{◌≡◌, refl, some, []}
use ggumirror_be.Base.Int.{pos, neg, ◌+ℤ◌}
use ggumirror_be.Base.Text.{char_count, codes, text_eqb, text_eq}
use ggumirror_be.Base.Dict.{get, insert}
use ggumirror_be.Canonical.{canonical, part, rest_parts, length, decimal, digits}
use ggumirror_be.Marketplace.Models.{
  Listing, Snapshot, mirror, listing_title_key, fee, fee_reason, normalized_title,
  normalized_description, checked_price,
}
use ggumirror_be.Marketplace.Market.{
  Market, put_listing, market_transaction, put_shards, own_listing, own_snapshot,
}
use ggumirror_be.Marketplace.Publish.{
  publish, publish_own, publish_charge, publish_commit, write_listing, claim_title,
  published_listing, publish_checks, is_blocked,
}
use ggumirror_be.Marketplace.Lifecycle.{
  DraftRequest, create_draft, checked_draft, content_type_of, create_snapshot, draft_of,
}
use ggumirror_be.Marketplace.Reach.{
  Reach, start, later, publishes, drafts, snapshots, empty_market, published_titles_unique,
  reached_books_balance,
}
use ggumirror_be.Shards.Models.{reason_value, empty_wallet}
use ggumirror_be.Shards.Keys.{idempotency_hash}
use ggumirror_be.Shards.Store.{
  wallet, apply, apply_new, write_change, changed_entry, changed_wallet, new_entry, moved_wallet,
  already_applied, quota_full, claim_conflict,
}
use ggumirror_be.Shards.Service.{moved, scoped_change}
use ggumirror_be.Shards.Scoped.{
  staged_write, scoped_wallet, apply_in_transaction, claim_wallet, member,
}
use ggumirror_be.Transaction.{commit, run_writes, within, add}
use ggumirror_be.Shards.Ledger.{IsSound}
use ggumirror_be.Shards.Tests.{granted-IsSound, alice, granted}
use ggumirror_be.Marketplace.Tests.{py, l1, content}

abbrev alices_content : Snapshot
alices_content = record content { seller_user_id = alice }

abbrev request : DraftRequest
request = record {
  content_type = codes "mirror";
  title = codes "gold";
  description = [];
  price_shards = pos 30;
  snapshot_id = codes "s1";
}

abbrev with_content : Market
with_content = (create_snapshot alices_content (empty_market granted)).1

abbrev with_draft : Market
with_draft = (create_draft py l1 alice request 11 with_content).1

abbrev with_listing : Market
with_listing = (publish py l1 alice 12 with_draft).1

with_listing-Reach : Reach py granted with_listing
with_listing-Reach =
    later (later (later start (snapshots alices_content)) (drafts l1 alice request 11))
      (publishes l1 alice 12)

abbrev golden : Listing
golden = published_listing (draft_of l1 alice request mirror (codes "gold") [] (pos 30) 11) 12

with_listing-golden : get l1 with_listing.listings ≡ some golden
unfolding create_snapshot create_draft checked_draft content_type_of normalized_title
    normalized_description checked_price char_count draft_of published_listing put_listing publish
    publish_own publish_charge publish_commit own_listing publish_checks own_snapshot is_blocked
    listing_title_key fee fee_reason scoped_change moved apply_in_transaction claim_wallet member
    ◌+ℤ◌ neg get insert wallet empty_wallet text_eqb commit run_writes write_listing claim_title
    market_transaction within put_shards staged_write add scoped_wallet apply apply_new
    claim_conflict already_applied quota_full write_change changed_wallet changed_entry moved_wallet
    new_entry idempotency_hash canonical part rest_parts length decimal digits reason_value
with_listing-golden = refl

published_titles_unique_example : l1 ≡ l1
unfolding published_listing
published_titles_unique_example =
    published_titles_unique py granted with_listing l1 l1 golden golden with_listing-Reach
      with_listing-golden with_listing-golden refl refl refl

reached_books_balance_example : IsSound with_listing.shards
reached_books_balance_example =
    reached_books_balance py granted with_listing granted-IsSound with_listing-Reach
