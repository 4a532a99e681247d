-- ===== src/Marketplace/AcquireLaws.antt =====
-- What one purchase does (app/marketplace/store.py, `acquire`).
use ggumirror_be.Base.{ℕ, ◌≡◌, refl, ◌≢◌, true, false, none, some, arith}
use ggumirror_be.Base.Int.{pos, neg, ◌+ℤ◌, ◌≤ℤ◌, ltb_ℤ}
use ggumirror_be.Base.Text.{Text, text_eq, text_eqb_iff, ◌==◌}
use ggumirror_be.Base.Dict.{get, insert, get-insert_self}
use ggumirror_be.Base.Exec.{ok, err, is_ok, self_purchase}
use ggumirror_be.Marketplace.Models.{
  Python, Listing, Ownership, ownership_id, purchase_reason, sale_reason,
}
use ggumirror_be.Marketplace.Market.{
  Market, get_published, market_transaction, put_shards, is_public, ownership,
}
use ggumirror_be.Marketplace.Acquire.{
  PurchaseResult, Payment, with_download_count, sale_event, notify, bought, pay, pay_priced,
  pay_free, acquire_commit, acquire, write_ownership, write_counter, write_notification,
}
use ggumirror_be.Shards.Models.{max_delta}
use ggumirror_be.Shards.Keys.{idempotency_hash}
use ggumirror_be.Shards.Store.{wallet, new_entry, moved_wallet}
use ggumirror_be.Shards.Scoped.{Staged, staged_write, scoped_wallet, scoped_entry}
use ggumirror_be.Shards.Service.{scoped_change, moved}
use ggumirror_be.Shards.Ledger.{IsSound, balance_of}
use ggumirror_be.Shards.ScopedLaws.{staged}
use ggumirror_be.Shards.ServiceLaws.{moved_pos, moved_neg}
use ggumirror_be.Shards.Transfer.{
  Transfer, CanTransfer, debit_staged, after_transfer, debit_stages, credit_stages,
  transfer-IsSound, transfer-balances,
}
use ggumirror_be.Transaction.{commit, run_writes, add, within}

module _ (py : Python) (id buyer : Text) (now : ℕ) (m : Market) (l : Listing) where
  abbrev key : Text
  key = ownership_id py buyer id

  -- The price goes from the buyer to the seller under the key of the ownership.
  abbrev pub sale : Transfer
  sale = record {
    payer = buyer;
    payee = l.seller_user_id;
    amount = l.price_shards;
    debit_reason = purchase_reason l.content_type;
    credit_reason = sale_reason l.content_type;
    debit_key = idempotency_hash py.sha256 buyer (purchase_reason l.content_type) key;
    credit_key = idempotency_hash py.sha256 l.seller_user_id (sale_reason l.content_type) key;
  }

  -- A listing in the store, at a price that one change may move, of another seller, not yet owned.
  pub record CanBuy : Type 0 where
    pub listed : get_published m id ≡ ok l
    pub fresh : get key m.ownership_records ≡ none
    pub priced : pos 1 ≤ℤ l.price_shards
    pub movable : l.price_shards ≤ℤ pos max_delta
    pub can_pay : CanTransfer sale now m.shards

  abbrev paid : Staged
  paid =
      staged m.shards (debit_staged sale now m.shards) l.seller_user_id l.price_shards
        (sale_reason l.content_type) sale.credit_key now

  abbrev payment : Payment
  payment = record {
    writes = paid.context.transaction.writes;
    balance = (wallet m.shards now buyer).balance +ℤ neg l.price_shards;
    buyer_entry = some sale.debit_key;
    seller_entry = some sale.credit_key;
  }

  -- The store after the purchase.
  abbrev pub after_purchase : Market
  after_purchase = record m {
    ownership_records =
        insert key (bought id l key buyer l.price_shards payment now) m.ownership_records;
    listings = insert id (with_download_count l (l.download_count +ℤ pos 1)) m.listings;
    notifications = notify (sale_event py l key l.price_shards now) m.notifications;
    shards = after_transfer sale now m.shards;
  }

  abbrev pub purchase : PurchaseResult
  purchase = record {
    ownership = bought id l key buyer l.price_shards payment now;
    purchased = true;
    already_owned = false;
    price_paid = l.price_shards;
    balance = payment.balance;
    download_count = l.download_count +ℤ pos 1;
    sale_event = some (sale_event py l key l.price_shards now);
  }

  module _ (h : CanBuy) where
    moved_ok :
        (moved l.price_shards ≡ ok l.price_shards)
        × (moved (neg l.price_shards) ≡ ok (neg l.price_shards))
    moved_ok =
        (moved_pos l.price_shards h.priced h.movable, moved_neg l.price_shards h.priced h.movable)

    pays : pay_priced py m.shards l key buyer now ≡ ok payment
    unfolding pay_priced scoped_change scoped_wallet scoped_entry new_entry moved_wallet
    pays =
        rw
          (
            moved_ok.1,
            moved_ok.0,
            debit_stages sale now m.shards h.can_pay,
            credit_stages sale now m.shards h.can_pay,
          )
          refl

    commits : acquire_commit py id m l key buyer now payment ≡ (ok purchase, after_purchase)
    unfolding acquire_commit commit run_writes add staged_write within write_ownership write_counter
        write_notification market_transaction put_shards with_download_count
    commits = rw (h.fresh, commit, run_writes, write_ownership) refl

    pub purchase_made : acquire py id buyer now m ≡ (ok purchase, after_purchase)
    unfolding acquire pay
    purchase_made =
        let other : (l.seller_user_id == buyer) ≡ false =
          ground (arith, text_eqb_iff l.seller_user_id buyer, h.can_pay.other) in
        let priced : ltb_ℤ (pos 0) l.price_shards ≡ true = ground (arith, h.priced) in
        rw (h.listed, h.fresh, other, priced, pays) commits

    pub owned_after : ownership py after_purchase id buyer ≡ some purchase.ownership
    unfolding ownership
    owned_after = get-insert_self key purchase.ownership m.ownership_records

    pub counted_after :
        get id after_purchase.listings ≡ some (with_download_count l (l.download_count +ℤ pos 1))
    counted_after =
        get-insert_self id (with_download_count l (l.download_count +ℤ pos 1)) m.listings

    public_listing : is_public l ≡ true
    unfolding get_published
    public_listing = ground (arith, h.listed)

    pub listed_after :
        get_published after_purchase id ≡ ok (with_download_count l (l.download_count +ℤ pos 1))
    unfolding get_published is_public with_download_count
    listed_after = rw counted_after (rw public_listing refl)

-- A purchase of a public listing with a price, by another user who does not own it and has enough,
-- where the books balance and the keys are free, answers with the ownership and the sale, takes the
-- price from the buyer and gives all of it to the seller, touches no other wallet, keeps the books,
-- records the ownership and counts one download: all in one step.
pub acquire_moves :
    (py : Python) (id buyer : Text) (now : ℕ) (m : Market) (l : Listing)
    → CanBuy py id buyer now m l
    → let (r, m') = acquire py id buyer now m in
      (r ≡ ok (purchase py id buyer now m l))
      × (balance_of m'.shards buyer ≡ balance_of m.shards buyer +ℤ neg l.price_shards)
      × (balance_of m'.shards l.seller_user_id
          ≡ balance_of m.shards l.seller_user_id +ℤ l.price_shards)
      × ((v : Text)
          → v ≢ buyer
          → v ≢ l.seller_user_id
          → balance_of m'.shards v ≡ balance_of m.shards v)
      × IsSound m'.shards
      × (ownership py m' id buyer ≡ some (purchase py id buyer now m l).ownership)
      × (get id m'.listings ≡ some (with_download_count l (l.download_count +ℤ pos 1)))
acquire_moves py id buyer now m l h =
    let (paid, received, others) =
      transfer-balances (sale py id buyer now m l) now m.shards h.can_pay in
    rw (purchase_made py id buyer now m l h) (
      refl,
      paid,
      received,
      others,
      transfer-IsSound (sale py id buyer now m l) now m.shards h.can_pay,
      owned_after py id buyer now m l h,
      counted_after py id buyer now m l h,
    )

-- What is owned is not sold again: the call succeeds, tells the price that was paid, and changes
-- nothing.
pub acquire_owned :
    (py : Python) (id buyer : Text) (now : ℕ) (m : Market) (l : Listing) (o : Ownership)
    → get_published m id ≡ ok l
    → ownership py m id buyer ≡ some o
    → acquire py id buyer now m ≡ (
      ok (record {
        ownership = o;
        purchased = false;
        already_owned = true;
        price_paid = o.price_paid;
        balance = (wallet m.shards now buyer).balance;
        download_count = l.download_count;
        sale_event = none;
      }),
      m,
    )
unfolding acquire ownership
acquire_owned py id buyer now m l o listed have = rw (listed, have) refl

-- A public listing that costs nothing is acquired by another user who does not own it without the
-- ledger: the shard store stays as it is, the ownership is recorded at the listing's price, and one
-- download is counted.
pub acquire_free :
    (py : Python) (id buyer : Text) (now : ℕ) (m : Market) (l : Listing)
    → get_published m id ≡ ok l
    → ownership py m id buyer ≡ none
    → l.seller_user_id ≢ buyer
    → l.price_shards ≡ pos 0
    → let (r, m') = acquire py id buyer now m in
      (is_ok r ≡ true)
      × (m'.shards ≡ m.shards)
      × (ownership py m' id buyer
          ≡ some (
              bought id l
                (ownership_id py buyer id)
                buyer
                l.price_shards
                (pay_free m.shards buyer now)
                now))
      × (get id m'.listings ≡ some (with_download_count l (l.download_count +ℤ pos 1)))
unfolding acquire acquire_commit pay pay_free ownership commit run_writes write_ownership
    write_counter write_notification market_transaction with_download_count
acquire_free py id buyer now m l listed fresh other free =
    let another : (l.seller_user_id == buyer) ≡ false =
      ground (arith, text_eqb_iff l.seller_user_id buyer, other) in
    let unpriced : ltb_ℤ (pos 0) l.price_shards ≡ false = rw free refl in
    rw (listed, fresh, another, unpriced, fresh, commit, run_writes, write_ownership)
      (refl, refl, get-insert_self _ _ m.ownership_records, get-insert_self id _ m.listings)

-- A seller's own listing is refused, also where it is free, and nothing changes.
pub acquire_own :
    (py : Python) (id : Text) (now : ℕ) (m : Market) (l : Listing)
    → get_published m id ≡ ok l
    → ownership py m id l.seller_user_id ≡ none
    → acquire py id l.seller_user_id now m ≡ (err self_purchase, m)
unfolding acquire ownership
acquire_own py id now m l listed fresh =
    let own : (l.seller_user_id == l.seller_user_id) ≡ true =
      ground (arith, text_eqb_iff l.seller_user_id l.seller_user_id) in
    rw (listed, fresh, own) refl
