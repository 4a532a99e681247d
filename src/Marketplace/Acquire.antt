-- ===== src/Marketplace/Acquire.antt =====
-- app/marketplace/store.py, `acquire`: the buyer's shards, the seller's shards, the ownership, the
-- counter and the sale notification are one commit.
use ggumirror_be.Base.{ℕ, Bool, true, false, Option, none, some, List, [], ◌∷◌, if◌then◌else◌}
use ggumirror_be.Base.Int.{ℤ, pos, ◌+ℤ◌, neg, ltb_ℤ}
use ggumirror_be.Base.Text.{Text, text_eq, ◌==◌}
use ggumirror_be.Base.Dict.{Dict, get, insert, erase, contains}
use ggumirror_be.Base.Exec.{Result, ok, err, ◌>>=◌, self_purchase, key_error}
use ggumirror_be.Marketplace.Models.{
  Python, Listing, Ownership, NotificationEvent, marketplace_sale, content_value, purchase_reason,
  sale_reason, ownership_id, sale_event_id,
}
use ggumirror_be.Marketplace.Market.{Market, get_published, market_transaction}
use ggumirror_be.Marketplace.Publish.{settled, restore_key}
use ggumirror_be.Shards.Store.{ShardStore, wallet}
use ggumirror_be.Shards.Scoped.{context}
use ggumirror_be.Shards.Service.{scoped_change}
use ggumirror_be.Transaction.{Write, done, failed, commit}

pub record PurchaseResult : Type 0 where
  pub ownership : Ownership
  pub purchased : Bool
  pub already_owned : Bool
  pub price_paid : ℤ
  pub balance : ℤ
  pub download_count : ℤ
  pub sale_event : Option NotificationEvent

-- What a payment hands to the rest of the transaction.
pub record Payment : Type 0 where
  pub writes : List (Write ShardStore)
  pub balance : ℤ
  pub buyer_entry : Option Text
  pub seller_entry : Option Text

-- `_with_download_count`
unfoldable pub with_download_count : Listing → ℤ → Listing
with_download_count l count = record l { download_count = count }

-- `_sale_event`
unfoldable pub sale_event : Python → Listing → Text → ℤ → ℕ → NotificationEvent
sale_event py l key price now = record {
  id = sale_event_id py key;
  user_id = l.seller_user_id;
  kind = marketplace_sale;
  listing_id = l.id;
  content_type = content_value l.content_type;
  title_snapshot = l.title;
  shard_amount = price;
  takedown_reason = none;
  takedown_paid = pos 0;
  created_at = now;
  read_at = none;
}

-- `InMemoryNotificationStore.create`: an event is never written over.
unfoldable pub notify :
    NotificationEvent → Dict Text NotificationEvent → Dict Text NotificationEvent
notify e d = if contains e.id d then d else insert e.id e d

unfoldable pub write_ownership : Text → Ownership → Write Market
write_ownership key o m =
    if contains key m.ownership_records
    then failed key_error
    else done (record m { ownership_records = insert key o m.ownership_records })
        (λ m'. record m' { ownership_records = erase key m'.ownership_records })

unfoldable pub write_counter : Text → Listing → Write Market
write_counter id l m =
    done (record m { listings = insert id l m.listings })
      (λ m'. record m' { listings = restore_key id (get id m.listings) m'.listings })

unfoldable pub write_notification : NotificationEvent → Write Market
write_notification e m = done (record m { notifications = notify e m.notifications }) (λ m'. m')

unfoldable pub bought : Text → Listing → Text → Text → ℤ → Payment → ℕ → Ownership
bought id l key buyer price p now = record {
  id = key;
  user_id = buyer;
  listing_id = id;
  seller_user_id = l.seller_user_id;
  snapshot_id = l.snapshot_id;
  price_paid = price;
  buyer_ledger_entry_id = p.buyer_entry;
  seller_ledger_entry_id = p.seller_entry;
  created_at = now;
}

-- A free listing moves nothing.
unfoldable pub pay_free : ShardStore → Text → ℕ → Payment
pay_free s buyer now = record {
  writes = [];
  balance = (wallet s now buyer).balance;
  buyer_entry = none;
  seller_entry = none;
}

module _ (py : Python) where
  -- The buyer's debit and the seller's credit, in one attempt.
  unfoldable pub pay_priced : ShardStore → Listing → Text → Text → ℕ → Result Payment
  pay_priced s l key buyer now = do
    debit ←
        scoped_change py.sha256 s context buyer (neg l.price_shards)
          (purchase_reason l.content_type) key now
    credit ←
        scoped_change py.sha256 s debit.context l.seller_user_id l.price_shards
          (sale_reason l.content_type) key now
    ok (record {
      writes = credit.context.transaction.writes;
      balance = debit.wallet.balance;
      buyer_entry = some debit.entry.id;
      seller_entry = some credit.entry.id;
    })

  unfoldable pub pay : ShardStore → Listing → Text → Text → ℕ → Result Payment
  pay s l key buyer now =
      if ltb_ℤ (pos 0) l.price_shards
      then pay_priced s l key buyer now
      else ok (pay_free s buyer now)

  -- The transaction's writes after the shard changes, with what they write.
  unfoldable pub acquire_commit :
      Text → Market → Listing → Text → Text → ℕ → Payment → Result PurchaseResult × Market
  acquire_commit id m l key buyer now p =
      let o = bought id l key buyer l.price_shards p now in
      let counted = with_download_count l (l.download_count +ℤ pos 1) in
      let sale = sale_event py l key l.price_shards now in
      let (r, _, m') =
        commit
          (market_transaction p.writes
            (write_ownership key o ∷ write_counter id counted ∷ write_notification sale ∷ []))
          m in
      (
        settled
            (record {
              ownership = o;
              purchased = true;
              already_owned = false;
              price_paid = l.price_shards;
              balance = p.balance;
              download_count = counted.download_count;
              sale_event = some sale;
            })
            r,
        m',
      )

  abbrev pub acquire_paid :
      Text → Market → Listing → Text → Text → ℕ → Result Payment → Result PurchaseResult × Market
  acquire_paid id m l key buyer now (err e) = (err e, m)
  acquire_paid id m l key buyer now (ok p) = acquire_commit id m l key buyer now p

  abbrev pub acquire_new :
      Text → Market → Listing → Text → ℕ → Option Ownership → Result PurchaseResult × Market
  acquire_new id m l buyer now (some o) = (
    ok (record {
      ownership = o;
      purchased = false;
      already_owned = true;
      price_paid = o.price_paid;
      balance = (wallet m.shards now buyer).balance;
      download_count = l.download_count;
      sale_event = none;
    }),
    m,
  )
  acquire_new id m l buyer now none =
      if l.seller_user_id == buyer
      then (err self_purchase, m)
      else acquire_paid id m l (ownership_id py buyer id) buyer now
          (pay m.shards l (ownership_id py buyer id) buyer now)

  abbrev pub acquire_public :
      Text → Market → Text → ℕ → Result Listing → Result PurchaseResult × Market
  acquire_public id m buyer now (err e) = (err e, m)
  acquire_public id m buyer now (ok l) =
      acquire_new id m l buyer now (get (ownership_id py buyer id) m.ownership_records)

  unfoldable pub acquire : Text → Text → ℕ → Market → Result PurchaseResult × Market
  acquire id buyer now m = acquire_public id m buyer now (get_published m id)
