-- ===== src/Marketplace/ModerationLaws.antt =====
-- What an operator's decision does (app/marketplace/store.py, `takedown` and `restore`).
use ggumirror_be.Base.{ℕ, ◌≡◌, refl, ◌≢◌, ap, ◌∙◌, true, false, some, none, arith, if◌then◌else◌}
use ggumirror_be.Base.Int.{ℤ, pos, ◌+ℤ◌, ◌≤ℤ◌, int_laws}
use ggumirror_be.Base.Text.{Text, text_eq, text_eqb_iff, ◌==◌}
use ggumirror_be.Base.Dict.{get, insert, get-insert_self}
use ggumirror_be.Base.Exec.{ok, err, is_ok, terminal_listing, moderated_listing, listing_not_found}
use ggumirror_be.Marketplace.Models.{
  Python, Listing, ModerationReason, is_terminal, is_moderated, moderation_compensation,
}
use ggumirror_be.Marketplace.Market.{
  Market, own_listing, get_published, any_listing, put_listing, is_public, market_transaction,
  put_shards,
}
use ggumirror_be.Marketplace.Publish.{publish, publish_own}
use ggumirror_be.Marketplace.Acquire.{acquire}
use ggumirror_be.Marketplace.Moderation.{
  takedown, takedown_listed, restore, removed_listing, write_takedown, record_event, block_source,
}
use ggumirror_be.Shards.Models.{ShardLedgerEntry, marketplace_moderation_compensation}
use ggumirror_be.Shards.Keys.{idempotency_hash}
use ggumirror_be.Shards.Store.{ShardStore, wallet, moved_wallet}
use ggumirror_be.Shards.Scoped.{
  context, member, after_write, staged_write, scoped_wallet, scoped_entry, apply_in_transaction,
}
use ggumirror_be.Shards.Service.{scoped_change, moved}
use ggumirror_be.Shards.Ledger.{
  IsSound, balance_of, balance_of-insert, wallet-balance, wallet-WalletOk, Posted-IsSound,
}
use ggumirror_be.Shards.ScopedLaws.{scoped-Posted, apply_in_transaction_stages}
use ggumirror_be.Transaction.{commit, run_writes, add, within}

module _ (py : Python) (fresh id actor : Text) (reason : ModerationReason) (note : Text) (now : ℕ)
    (m : Market) (l : Listing) where
  abbrev amount : ℤ
  amount = pos moderation_compensation

  abbrev pub compensation_key : Text
  compensation_key =
      idempotency_hash py.sha256 l.seller_user_id marketplace_moderation_compensation l.id

  abbrev compensated : ShardStore
  compensated =
      after_write l.seller_user_id (scoped_wallet m.shards l.seller_user_id amount now)
        (scoped_entry m.shards l.seller_user_id amount marketplace_moderation_compensation
          compensation_key now)
        compensation_key m.shards

  abbrev taken : Listing
  taken = removed_listing l reason actor now

  abbrev after_takedown : Market
  after_takedown =
      put_shards compensated
        (write_takedown py fresh taken actor reason note moderation_compensation now m)

  paid_takedown :
      get id m.listings ≡ some l
      → is_moderated l ≡ false
      → IsSound m.shards
      → get compensation_key m.shards.applied ≡ none
      → takedown py fresh id actor reason note now m ≡ (
        ok (record { listing = taken; changed = true; compensation = moderation_compensation }),
        after_takedown,
      )
  unfolding takedown takedown_listed any_listing scoped_change write_takedown commit run_writes
      market_transaction within put_shards staged_write add member moved put_listing record_event
      block_source
  paid_takedown found up sound free =
      let fits : pos 0 ≤ℤ (wallet m.shards now l.seller_user_id).balance +ℤ amount =
        omega (int_laws, (wallet-WalletOk m.shards now l.seller_user_id sound).nonneg) in
      let stages =
        apply_in_transaction_stages m.shards context l.seller_user_id amount
          marketplace_moderation_compensation compensation_key now free refl fits in
      simp (found, up, stages)

  compensated-balances :
      (v : Text)
      → balance_of compensated v
        ≡ (if v == l.seller_user_id then balance_of m.shards v +ℤ amount else balance_of m.shards v)
  unfolding after_write scoped_wallet moved_wallet
  compensated-balances v = ground (
    arith,
    balance_of-insert m.shards compensated l.seller_user_id v
        (scoped_wallet m.shards l.seller_user_id amount now) refl,
    wallet-balance m.shards now l.seller_user_id,
    text_eqb_iff v l.seller_user_id,
  )

  compensated-IsSound : IsSound m.shards → IsSound compensated
  compensated-IsSound sound =
      Posted-IsSound m.shards compensated l.seller_user_id _ _
        (scoped-Posted l.seller_user_id amount marketplace_moderation_compensation compensation_key
          now m.shards m.shards sound refl
          (omega (int_laws, (wallet-WalletOk m.shards now l.seller_user_id sound).nonneg)))
        sound

  held_now :
      (m' : Market)
      → m'.listings ≡ insert l.id taken m.listings
      → l.id ≡ id
      → (any_listing m' id ≡ ok taken) × (is_ok (get_published m' id) ≡ false)
  unfolding any_listing get_published is_public removed_listing
  held_now m' written same =
      let found : get id m'.listings ≡ some taken =
        ap (get id) written
        ∙ ap (λ (k : Text). get id (insert k taken m.listings)) same
        ∙ get-insert_self id taken m.listings in
      (rw found refl, rw found refl)

-- The takedown of a listing that is not taken down and has no compensation in the ledger, where the
-- books balance, hides it from the store, pays its seller five shards and nobody else, keeps the
-- books, and leaves what buyers own as it was: all in one step.
pub takedown_compensates :
    (py : Python) (fresh id actor : Text) (reason : ModerationReason) (note : Text) (now : ℕ)
    (m : Market) (l : Listing)
    → get id m.listings ≡ some l
    → l.id ≡ id
    → is_moderated l ≡ false
    → IsSound m.shards
    → get (compensation_key py fresh id actor reason note now m l) m.shards.applied ≡ none
    → let (r, m') = takedown py fresh id actor reason note now m in
      (is_ok r ≡ true)
      × (any_listing m' id ≡ ok (removed_listing l reason actor now))
      × (is_ok (get_published m' id) ≡ false)
      × (m'.ownership_records ≡ m.ownership_records)
      × (balance_of m'.shards l.seller_user_id
          ≡ balance_of m.shards l.seller_user_id +ℤ pos moderation_compensation)
      × ((v : Text) → v ≢ l.seller_user_id → balance_of m'.shards v ≡ balance_of m.shards v)
      × IsSound m'.shards
unfolding write_takedown record_event block_source put_listing put_shards removed_listing
takedown_compensates py fresh id actor reason note now m l found same up sound free =
    let made = paid_takedown py fresh id actor reason note now m l found up sound free in
    let balances = compensated-balances py fresh id actor reason note now m l in
    let held =
      held_now py fresh id actor reason note now m l
        (after_takedown py fresh id actor reason note now m l) refl same in
    let u = l.seller_user_id in
    rw made (
      refl,
      held.0,
      held.1,
      refl,
      ground (arith, balances u, text_eqb_iff u u),
      λ v other. ground (arith, balances v, text_eqb_iff v u),
      compensated-IsSound py fresh id actor reason note now m l sound,
    )

-- Once a listing's compensation is in the ledger, taking it down again, after a restore, succeeds
-- and pays nothing: the whole shard store stays as it is.
pub takedown_pays_once :
    (py : Python) (fresh id actor : Text) (reason : ModerationReason) (note : Text) (now : ℕ)
    (m : Market) (l : Listing) (e : ShardLedgerEntry)
    → get id m.listings ≡ some l
    → is_moderated l ≡ false
    → get (compensation_key py fresh id actor reason note now m l) m.shards.applied ≡ some e
    → let (r, m') = takedown py fresh id actor reason note now m in
      (r
        ≡ ok (record {
          listing = removed_listing l reason actor now;
          changed = true;
          compensation = 0;
        }))
      × (m'.shards ≡ m.shards)
unfolding takedown takedown_listed any_listing scoped_change apply_in_transaction write_takedown
    commit run_writes market_transaction moved put_listing record_event block_source
takedown_pays_once py fresh id actor reason note now m l e found up paid =
    rw found (simp (up, paid) (refl, refl))

-- A listing that its seller deleted is not brought back: `restore` raises and changes nothing.
pub restore_deleted :
    (py : Python) (fresh id actor : Text) (now : ℕ) (m : Market) (l : Listing)
    → get id m.listings ≡ some l
    → is_terminal l.status ≡ true
    → restore py fresh id actor now m ≡ (err terminal_listing, m)
unfolding restore any_listing
restore_deleted py fresh id actor now m l found gone = rw found (rw gone refl)

-- A listing that an operator took down and that is not deleted is neither published by its seller
-- nor sold to anybody: both calls raise and change nothing.
pub held_listing :
    (py : Python) (id buyer : Text) (now : ℕ) (m : Market) (l : Listing)
    → get id m.listings ≡ some l
    → is_moderated l ≡ true
    → is_terminal l.status ≡ false
    → (publish py id l.seller_user_id now m ≡ (err moderated_listing, m))
      × (acquire py id buyer now m ≡ (err listing_not_found, m))
unfolding publish publish_own own_listing acquire get_published is_public
held_listing py id buyer now m l found held live =
    let own : (l.seller_user_id == l.seller_user_id) ≡ true =
      ground (arith, text_eqb_iff l.seller_user_id l.seller_user_id) in
    (rw (found, own, live) (simp held), rw found (simp held))
