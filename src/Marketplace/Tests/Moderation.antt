-- ===== src/Marketplace/Tests/Moderation.antt =====
-- Takedowns, likes and deletion at a concrete store.
use ggumirror_be.Base.{◌≡◌, refl, ◌≢◌, sym, true, false, some, [], arith}
use ggumirror_be.Base.Int.{pos, ◌+ℤ◌}
use ggumirror_be.Base.Text.{Text, codes, text_eqb, text_eq}
use ggumirror_be.Base.Dict.{get, insert}
use ggumirror_be.Base.Exec.{ok, err, is_ok, listing_not_found, invalid_transition, terminal_listing}
use ggumirror_be.Canonical.{canonical, part, rest_parts, length, decimal, digits}
use ggumirror_be.Marketplace.Models.{Listing, removed, spam, like_id}
use ggumirror_be.Marketplace.Market.{Market, get_published, any_listing, is_public}
use ggumirror_be.Marketplace.Publish.{publish}
use ggumirror_be.Marketplace.Lifecycle.{delete, unpublish}
use ggumirror_be.Marketplace.Acquire.{acquire}
use ggumirror_be.Marketplace.Likes.{like, unlike, with_like_count}
use ggumirror_be.Marketplace.Moderation.{takedown, restore, removed_listing}
use ggumirror_be.Marketplace.ModerationLaws.{takedown_compensates}
use ggumirror_be.Marketplace.LikeLaws.{CanLike, liked, unlike-like}
use ggumirror_be.Marketplace.LifecycleLaws.{delete_is_final}
use ggumirror_be.Shards.Models.{reason_value, empty_wallet, marketplace_moderation_compensation}
use ggumirror_be.Shards.Keys.{idempotency_hash}
use ggumirror_be.Shards.Store.{
  empty_store, Change, wallet, apply, apply_new, write_change, already_applied, quota_full,
  claim_conflict,
}
use ggumirror_be.Shards.Ledger.{IsSound, balance_of}
use ggumirror_be.Shards.Tests.{plain, alice, bob, grant, granted, granted-IsSound, alice≢bob}
use ggumirror_be.Marketplace.Tests.{py, l1, on_sale, market}

takedown_compensates_example :
    let (r, m') = takedown py (codes "e") l1 alice spam [] 12 market in
    (is_ok r ≡ true)
    × (any_listing m' l1 ≡ ok (removed_listing on_sale spam alice 12))
    × (is_ok (get_published m' l1) ≡ false)
    × (m'.ownership_records ≡ [])
    × (balance_of m'.shards bob ≡ balance_of granted bob +ℤ pos 5)
    × ((v : Text) → v ≢ bob → balance_of m'.shards v ≡ balance_of granted v)
    × IsSound m'.shards
unfolding apply apply_new claim_conflict already_applied quota_full get wallet empty_wallet
    write_change insert idempotency_hash canonical part rest_parts length decimal digits
    reason_value text_eqb ◌+ℤ◌
takedown_compensates_example =
    takedown_compensates py (codes "e") l1 alice spam [] 12 market on_sale refl refl refl
      granted-IsSound refl

abbrev payment : Change
payment = record grant {
  key = some (idempotency_hash plain bob marketplace_moderation_compensation l1);
}

abbrev compensated_before : Market
compensated_before = record market { shards = (apply payment (codes "e1") 10 empty_store).1 }

abbrev held : Listing
held = record on_sale { moderation_status = removed; moderation_reason = some spam }

alice-CanLike : CanLike py l1 alice 12 market on_sale
unfolding get text_eqb get_published is_public
alice-CanLike = record {
  listed = refl;
  other = λ e. alice≢bob (sym e);
  unliked = refl;
  counted = omega arith;
}

unlike-like_example :
    let (r, m') = like py l1 alice 12 market in
    (r ≡ ok (record { listing_id = l1; liked = true; changed = true; like_count = pos 2 +ℤ pos 1 }))
    × (get (like_id py alice l1) m'.likes_by_id ≡ some (liked py l1 alice 12 market on_sale))
    × (get l1 m'.listings ≡ some (with_like_count on_sale (pos 2 +ℤ pos 1)))
    × ((unlike py l1 alice m').1 ≡ market)
unlike-like_example = unlike-like py l1 alice 12 market on_sale alice-CanLike

delete_is_final_example :
    let m' = (delete py l1 bob 12 market).1 in
    (publish py l1 bob 13 m' ≡ (err invalid_transition, m'))
    × (restore py (codes "e") l1 alice 13 m' ≡ (err terminal_listing, m'))
    × (acquire py l1 alice 13 m' ≡ (err listing_not_found, m'))
    × ((delete py l1 bob 13 m').1 ≡ m')
    × ((unpublish py l1 bob 13 m').1 ≡ m')
unfolding get text_eqb
delete_is_final_example =
    delete_is_final py l1 12 market on_sale refl refl refl 13 (codes "e") alice alice
