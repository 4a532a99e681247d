-- ===== src/Marketplace/Tests/Publish.antt =====
-- Publication and its failures at a concrete store.
use ggumirror_be.Base.{◌≡◌, refl, ◌≢◌, true, false, some, none, [], ◌∷◌, arith}
use ggumirror_be.Base.Int.{pos, neg, ◌+ℤ◌}
use ggumirror_be.Base.Text.{Text, codes, text_eqb, text_eq}
use ggumirror_be.Base.Dict.{get, insert}
use ggumirror_be.Base.Exec.{ok, is_ok}
use ggumirror_be.Canonical.{canonical, part, rest_parts, length, decimal, digits}
use ggumirror_be.Marketplace.Models.{Listing, mirror, draft, listing_title_key, fee, fee_reason}
use ggumirror_be.Marketplace.Market.{Market, get_published, own_listing, own_snapshot}
use ggumirror_be.Marketplace.Publish.{publish, published_listing, publish_checks, is_blocked}
use ggumirror_be.Marketplace.PublishLaws.{CanPublish, publish_charges}
use ggumirror_be.Shards.Models.{reason_value, empty_wallet}
use ggumirror_be.Shards.Keys.{idempotency_hash}
use ggumirror_be.Shards.Store.{
  empty_store, wallet, apply, apply_new, write_change, changed_entry, changed_wallet, new_entry,
  moved_wallet, already_applied, quota_full, claim_conflict,
}
use ggumirror_be.Shards.Ledger.{IsSound, balance_of}
use ggumirror_be.Shards.Tests.{alice, granted, granted-IsSound}
use ggumirror_be.Marketplace.Tests.{py, l1, on_sale, content, store_with}

abbrev drafted : Listing
drafted = record on_sale {
  status = draft;
  publish_fee_paid = false;
  published_at = none;
  seller_user_id = alice;
}

abbrev alices : Market
alices = record (store_with drafted) {
  snapshots = (codes "s1", record content { seller_user_id = alice }) ∷ [];
}

alice-CanPublish : CanPublish py l1 alice 12 alices drafted
unfolding own_listing get text_eqb publish_checks own_snapshot is_blocked listing_title_key
alice-CanPublish = record { owned = refl; live = refl; free = refl; hidden = refl; passed = refl }

publish_charges_example :
    let (r, m') = publish py l1 alice 12 alices in
    (is_ok r ≡ true)
    × (balance_of m'.shards alice ≡ balance_of granted alice +ℤ neg (pos (fee mirror)))
    × ((v : Text) → v ≢ alice → balance_of m'.shards v ≡ balance_of granted v)
    × IsSound m'.shards
    × (get (listing_title_key py (codes "mirror of gold")) m'.title_claims ≡ some l1)
    × (get_published m' l1 ≡ ok (published_listing drafted 12))
unfolding apply apply_new claim_conflict already_applied quota_full get wallet empty_wallet ◌+ℤ◌
    write_change changed_wallet changed_entry moved_wallet new_entry insert balance_of
    idempotency_hash canonical part rest_parts length decimal digits reason_value text_eqb fee
    fee_reason
publish_charges_example =
    publish_charges py l1 alice 12 alices drafted alice-CanPublish granted-IsSound refl refl refl
      (omega arith)

abbrev hidden_again : Listing
hidden_again = record drafted { publish_fee_paid = true }

abbrev paid_store : Market
paid_store = record alices { listings = (l1, hidden_again) ∷ [] }

paid-CanPublish : CanPublish py l1 alice 12 paid_store hidden_again
unfolding own_listing get text_eqb publish_checks own_snapshot is_blocked listing_title_key
paid-CanPublish = record { owned = refl; live = refl; free = refl; hidden = refl; passed = refl }

-- Without shards the fee cannot be paid.
abbrev poor : Market
poor = record alices { shards = empty_store }
