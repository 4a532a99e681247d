-- ===== src/Marketplace/PublishLaws.antt =====
-- What a publication costs (app/marketplace/store.py, `publish`).
use ggumirror_be.Base.{
  ℕ, ◌≡◌, refl, ◌≢◌, ap, ◌∙◌, Bool, true, false, some, none, arith, if◌then◌else◌, ◌≤◌,
}
use ggumirror_be.Base.Int.{ℤ, pos, neg, ◌+ℤ◌, ◌≤ℤ◌, int_laws}
use ggumirror_be.Base.Text.{Text, text_eq, text_eqb_iff, ◌==◌}
use ggumirror_be.Base.Dict.{get, insert, get-insert_self}
use ggumirror_be.Base.Exec.{ok, is_ok}
use ggumirror_be.Marketplace.Models.{
  Python, Listing, ContentType, mirror, sticker, is_terminal, is_moderated, is_published, fee,
  fee_reason, listing_title_key,
}
use ggumirror_be.Marketplace.Market.{
  Market, own_listing, get_published, market_transaction, put_shards, is_public,
}
use ggumirror_be.Marketplace.Publish.{
  PublishResult, publish, publish_own, publish_checks, publish_charge, publish_commit,
  published_listing, write_listing, claim_title,
}
use ggumirror_be.Shards.Keys.{idempotency_hash}
use ggumirror_be.Shards.Store.{ShardStore, wallet, moved_wallet}
use ggumirror_be.Shards.Scoped.{
  context, member, after_write, staged_write, scoped_wallet, scoped_entry,
}
use ggumirror_be.Shards.Service.{scoped_change, moved}
use ggumirror_be.Shards.ServiceLaws.{moved_neg}
use ggumirror_be.Shards.Ledger.{
  IsSound, balance_of, balance_of-insert, wallet-balance, Posted-IsSound,
}
use ggumirror_be.Shards.ScopedLaws.{scoped-Posted, apply_in_transaction_stages}
use ggumirror_be.Transaction.{commit, run_writes, add, within}

fee_bounds : (c : ContentType) → (1 ≤ fee c) × (fee c ≤ 100_000)
unfolding fee
fee_bounds mirror = (omega arith, omega arith)
fee_bounds sticker = (omega arith, omega arith)

module _ (py : Python) (id seller : Text) (now : ℕ) (m : Market) (l : Listing) where
  -- A seller's own listing that may go public now: not deleted, not taken down, not public yet, with
  -- its content there and unblocked and its title free.
  pub record CanPublish : Type 0 where
    pub owned : own_listing m id seller ≡ ok l
    pub live : is_terminal l.status ≡ false
    pub free : is_moderated l ≡ false
    pub hidden : is_published l.status ≡ false
    pub passed : publish_checks py m l ≡ ok tt

  abbrev pub cost : ℤ
  cost = neg (pos (fee l.content_type))

  abbrev pub fee_key : Text
  fee_key = idempotency_hash py.sha256 l.seller_user_id (fee_reason l.content_type) l.id

  abbrev pub charged_shards : ShardStore
  charged_shards =
      after_write l.seller_user_id (scoped_wallet m.shards l.seller_user_id cost now)
        (scoped_entry m.shards l.seller_user_id cost (fee_reason l.content_type) fee_key now)
        fee_key m.shards

  abbrev pub after_publish : ShardStore → Market
  after_publish s = record m {
    listings = insert l.id (published_listing l now) m.listings;
    title_claims = insert (listing_title_key py l.title) l.id m.title_claims;
    shards = s;
  }

  abbrev publish_answer : Bool → ℤ → PublishResult
  publish_answer charged balance = record {
    listing = published_listing l now;
    published = true;
    fee_charged = charged;
    fee_shards = fee l.content_type;
    balance = balance;
  }

  module _ (h : CanPublish) where
    charges_next : publish py id seller now m ≡ publish_charge py m l now
    unfolding publish publish_own
    charges_next = rw (h.owned, h.live, h.free, h.hidden, h.passed) refl

    pub publish_paid_before :
        l.publish_fee_paid ≡ true
        → publish py id seller now m ≡ (
          ok (publish_answer false (wallet m.shards now l.seller_user_id).balance),
          after_publish m.shards,
        )
    unfolding publish_charge publish_commit commit run_writes write_listing claim_title
        market_transaction published_listing fee wallet insert
    publish_paid_before paid = charges_next ∙ simp paid

    fee_moves : moved cost ≡ ok cost
    fee_moves =
        let (low, high) = fee_bounds l.content_type in
        moved_neg (pos (fee l.content_type)) (omega (arith, low)) (omega (arith, high))

    publish_first_time :
        l.publish_fee_paid ≡ false
        → get fee_key m.shards.applied ≡ none
        → pos (fee l.content_type) ≤ℤ balance_of m.shards l.seller_user_id
        → publish py id seller now m ≡ (
          ok (publish_answer true ((wallet m.shards now l.seller_user_id).balance +ℤ cost)),
          after_publish charged_shards,
        )
    unfolding publish_charge publish_commit commit run_writes write_listing claim_title
        market_transaction published_listing insert scoped_change within put_shards staged_write
        scoped_wallet moved_wallet add member
    publish_first_time unpaid free enough =
        let fits : pos 0 ≤ℤ (wallet m.shards now l.seller_user_id).balance +ℤ cost =
          rw (wallet-balance m.shards now l.seller_user_id) (omega (int_laws, enough)) in
        let stages =
          apply_in_transaction_stages m.shards context l.seller_user_id cost
            (fee_reason l.content_type) fee_key now free refl fits in
        charges_next ∙ simp (unpaid, fee_moves, stages)

    fee-IsSound :
        IsSound m.shards
        → pos (fee l.content_type) ≤ℤ balance_of m.shards l.seller_user_id
        → IsSound charged_shards
    fee-IsSound sound enough =
        Posted-IsSound m.shards charged_shards l.seller_user_id _ _
          (scoped-Posted l.seller_user_id cost (fee_reason l.content_type) fee_key now m.shards
            m.shards sound refl
            (rw (wallet-balance m.shards now l.seller_user_id) (omega (int_laws, enough))))
          sound

    fee-balances :
        (v : Text)
        → balance_of charged_shards v
          ≡ (if v == l.seller_user_id then balance_of m.shards v +ℤ cost else balance_of m.shards v)
    unfolding after_write scoped_wallet moved_wallet
    fee-balances v = ground (
      arith,
      balance_of-insert m.shards charged_shards l.seller_user_id v
          (scoped_wallet m.shards l.seller_user_id cost now) refl,
      wallet-balance m.shards now l.seller_user_id,
      text_eqb_iff v l.seller_user_id,
    )

    listed_now :
        (s : ShardStore)
        → l.id ≡ id
        → get_published (after_publish s) id ≡ ok (published_listing l now)
    unfolding get_published is_public published_listing
    listed_now s same =
        let found : get id (after_publish s).listings ≡ some (published_listing l now) =
          ap (λ (k : Text). get id (insert k (published_listing l now) m.listings)) same
          ∙ get-insert_self id (published_listing l now) m.listings in
        rw found (ground (arith, h.free))

-- A first publication of a listing that passes the checks, where the books balance, its fee is not
-- in the ledger and the seller has enough, takes the fee from the seller and from nobody else,
-- keeps the books, claims the title and puts the listing on public view: all in one step.
pub publish_charges :
    (py : Python) (id seller : Text) (now : ℕ) (m : Market) (l : Listing)
    → CanPublish py id seller now m l
    → IsSound m.shards
    → l.id ≡ id
    → l.publish_fee_paid ≡ false
    → get (fee_key py id seller now m l) m.shards.applied ≡ none
    → pos (fee l.content_type) ≤ℤ balance_of m.shards l.seller_user_id
    → let (r, m') = publish py id seller now m in
      (is_ok r ≡ true)
      × (balance_of m'.shards l.seller_user_id
          ≡ balance_of m.shards l.seller_user_id +ℤ neg (pos (fee l.content_type)))
      × ((v : Text) → v ≢ l.seller_user_id → balance_of m'.shards v ≡ balance_of m.shards v)
      × IsSound m'.shards
      × (get (listing_title_key py l.title) m'.title_claims ≡ some l.id)
      × (get_published m' id ≡ ok (published_listing l now))
publish_charges py id seller now m l h sound same unpaid free enough =
    let balances = fee-balances py id seller now m l h in
    let u = l.seller_user_id in
    rw (publish_first_time py id seller now m l h unpaid free enough) (
      refl,
      ground (arith, balances u, text_eqb_iff u u),
      λ v other. ground (arith, balances v, text_eqb_iff v u),
      fee-IsSound py id seller now m l h sound enough,
      get-insert_self (listing_title_key py l.title) l.id m.title_claims,
      listed_now py id seller now m l h _ same,
    )

-- A listing that passes the checks and whose fee is paid is published for nothing: the whole shard
-- store stays as it is, and the listing is on public view with its title claimed.
pub publish_again_free :
    (py : Python) (id seller : Text) (now : ℕ) (m : Market) (l : Listing)
    → CanPublish py id seller now m l
    → l.id ≡ id
    → l.publish_fee_paid ≡ true
    → let (r, m') = publish py id seller now m in
      (is_ok r ≡ true)
      × (m'.shards ≡ m.shards)
      × (get (listing_title_key py l.title) m'.title_claims ≡ some l.id)
      × (get_published m' id ≡ ok (published_listing l now))
publish_again_free py id seller now m l h same paid =
    rw (publish_paid_before py id seller now m l h paid) (
      refl,
      refl,
      get-insert_self (listing_title_key py l.title) l.id m.title_claims,
      listed_now py id seller now m l h m.shards same,
    )
