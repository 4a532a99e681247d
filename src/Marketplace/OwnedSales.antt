-- ===== src/Marketplace/OwnedSales.antt =====
-- What is owned stays owned under publish, acquire and takedown of app/marketplace/store.py, the
-- calls that commit shard movements.
use ggumirror_be.Base.{
  ℕ, ◌≡◌, false, inl, inr, some, none, [], ◌∷◌, Option-cases, if-all, arith, List, Bool,
}
use ggumirror_be.Base.Int.{ℤ, pos, neg}
use ggumirror_be.Base.Text.{Text, text_eq, text_eqb_iff, ◌==◌}
use ggumirror_be.Base.Dict.{get, insert, get-insert}
use ggumirror_be.Base.Exec.{Result, ok, err, Result-cases}
use ggumirror_be.Marketplace.Models.{
  Python, Listing, NotificationEvent, Ownership, ModerationReason, is_published, is_terminal,
  is_moderated, listing_title_key, fee, fee_reason, ownership_id, moderation_compensation,
}
use ggumirror_be.Marketplace.Market.{
  Market, own_listing, get_published, any_listing, put_listing, market_transaction, put_shards,
}
use ggumirror_be.Marketplace.Publish.{
  PublishResult, publish, publish_own, publish_commit, published_listing, write_listing,
  claim_title, publish_checks, publish_charge,
}
use ggumirror_be.Marketplace.Acquire.{
  Payment, PurchaseResult, acquire, acquire_paid, acquire_commit, write_ownership, write_counter,
  write_notification,
}
use ggumirror_be.Marketplace.Moderation.{
  ModerationResult, takedown, takedown_listed, takedown_paid_for, write_takedown, removed_listing,
  record_event, block_source,
}
use ggumirror_be.Marketplace.Owned.{Owned}
use ggumirror_be.Marketplace.Settling.{market_commit-all}
use ggumirror_be.Shards.Staging.{scoped_change-AllTotal, staged_total}
use ggumirror_be.Marketplace.Failures.{PaymentTotal, pay-total}
use ggumirror_be.Shards.Models.{marketplace_moderation_compensation}
use ggumirror_be.Shards.Scoped.{Staged, context}
use ggumirror_be.Shards.Store.{ShardStore}
use ggumirror_be.Shards.Service.{scoped_change}
use ggumirror_be.Transaction.{Write, commit, run_writes}
use ggumirror_be.Transaction.Total.{AllTotal}

module _ (py : Python) (m : Market) (k : Text) (own : Ownership) (h : Owned k own m) where
  publish_commit-Owned :
      (l : Listing) (shard_writes : List (Write ShardStore)) (balance : ℤ) (charged : Bool)
      (now : ℕ)
      → AllTotal shard_writes
      → Owned k own (publish_commit py m l shard_writes balance charged now).1
  unfolding publish_commit run_writes write_listing claim_title put_shards
  publish_commit-Owned l shard_writes balance charged now total =
      market_commit-all (λ out. Owned k own out.1) shard_writes
        (write_listing (published_listing l now)
          ∷ claim_title (listing_title_key py l.title) l.id
          ∷ [])
        m total (λ s undos. h)

  publish_charge-Owned : (l : Listing) (now : ℕ) → Owned k own (publish_charge py m l now).1
  unfolding publish_charge
  publish_charge-Owned l now =
      let change =
        scoped_change py.sha256 m.shards context l.seller_user_id (neg (pos (fee l.content_type)))
          (fee_reason l.content_type) l.id now in
      if-all (λ (out : Result PublishResult × Market). Owned k own out.1) l.publish_fee_paid _ _
        (publish_commit-Owned l [] _ false now tt)
        (elim (Result-cases change) [
          | inr (x, e) ↦ rw e h
          | inl (st, e) ↦ rw e (
              publish_commit-Owned l st.context.transaction.writes st.wallet.balance st.applied now
                (staged_total change st e (
                  scoped_change-AllTotal py.sha256 m.shards context l.seller_user_id _ _ l.id now
                    tt)))
        ])

  pub publish-Owned : (id seller : Text) (now : ℕ) → Owned k own (publish py id seller now m).1
  unfolding publish publish_own
  publish-Owned id seller now = elim (Result-cases (own_listing m id seller)) [
    | inr (x, e) ↦ rw e h
    | inl (l, e) ↦
        let P = λ (out : Result PublishResult × Market). Owned k own out.1 in
        rw e (
          if-all P (is_terminal l.status) _ _ h (
            if-all P (is_moderated l) _ _ h (
              if-all P (is_published l.status) _ _ h (elim (Result-cases (publish_checks py m l)) [
                | inr (x, refused) ↦ rw refused h
                | inl (tt, passed) ↦ rw passed (publish_charge-Owned l now)
              ]))))
  ]

  purchase_writes-Owned :
      (id : Text) (counted : Listing) (key : Text) (o : Ownership) (sale : NotificationEvent)
      (p : Payment)
      → AllTotal p.writes
      → get key m.ownership_records ≡ none
      → Owned k own
          (commit
            (market_transaction p.writes
              (write_ownership key o ∷ write_counter id counted ∷ write_notification sale ∷ []))
            m).2
  unfolding run_writes write_ownership write_counter write_notification put_shards
  purchase_writes-Owned id counted key o sale p total fresh =
      let kept : get k (insert key o m.ownership_records) ≡ some own =
        ground (arith, get-insert k key o m.ownership_records, text_eqb_iff k key, fresh, h) in
      market_commit-all (λ out. Owned k own out.1) p.writes
        (write_ownership key o ∷ write_counter id counted ∷ write_notification sale ∷ []) m total
        (λ s undos. rw (fresh, run_writes, write_ownership) kept)

  acquire_paid-Owned :
      (id : Text) (l : Listing) (key buyer : Text) (now : ℕ) (r : Result Payment)
      → PaymentTotal r
      → get key m.ownership_records ≡ none
      → Owned k own (acquire_paid py id m l key buyer now r).1
  unfolding acquire_commit
  acquire_paid-Owned id l key buyer now (err e) total fresh = h
  acquire_paid-Owned id l key buyer now (ok p) total fresh =
      purchase_writes-Owned id _ key _ _ p total fresh

  pub acquire-Owned : (id buyer : Text) (now : ℕ) → Owned k own (acquire py id buyer now m).1
  unfolding acquire
  acquire-Owned id buyer now = elim (Result-cases (get_published m id)) [
    | inr (x, e) ↦ rw e h
    | inl (l, e) ↦ elim (Option-cases (get (ownership_id py buyer id) m.ownership_records)) [
      | inr (o, have) ↦ rw (e, have) h
      | inl fresh ↦
          rw (e, fresh)
            (if-all (λ (out : Result PurchaseResult × Market). Owned k own out.1)
              (l.seller_user_id == buyer) _ _ h
              (acquire_paid-Owned id l (ownership_id py buyer id) buyer now _
                (pay-total py m.shards l (ownership_id py buyer id) buyer now) fresh))
    ]
  ]

  takedown_commit-Owned :
      (fresh : Text) (l : Listing) (actor : Text) (reason : ModerationReason) (note : Text)
      (now : ℕ) (st : Staged)
      → AllTotal st.context.transaction.writes
      → Owned k own (takedown_paid_for py fresh l actor reason note now m (ok st)).1
  unfolding write_takedown run_writes put_shards put_listing record_event block_source
      removed_listing
  takedown_commit-Owned fresh l actor reason note now st total =
      market_commit-all (λ out. Owned k own out.1) st.context.transaction.writes [] _ total
        (λ s undos. h)

  pub takedown-Owned :
      (fresh id actor : Text) (reason : ModerationReason) (note : Text) (now : ℕ)
      → Owned k own (takedown py fresh id actor reason note now m).1
  unfolding takedown takedown_listed
  takedown-Owned fresh id actor reason note now = elim (Result-cases (any_listing m id)) [
    | inr (x, e) ↦ rw e h
    | inl (l, e) ↦
        let change =
          scoped_change py.sha256 m.shards context l.seller_user_id (pos moderation_compensation)
            marketplace_moderation_compensation l.id now in
        rw e (
          if-all (λ (out : Result ModerationResult × Market). Owned k own out.1) (is_moderated l) _
            _ h
            (elim (Result-cases change) [
              | inr (x, refused) ↦ rw refused h
              | inl (st, paid) ↦ rw paid (
                  takedown_commit-Owned fresh l actor reason note now st (
                    staged_total change st paid (
                      scoped_change-AllTotal py.sha256 m.shards context l.seller_user_id _ _ l.id
                        now tt)))
            ]))
  ]
