-- ===== src/Marketplace/TitleReach.antt =====
-- The titles under the operations of app/marketplace/store.py: `publish`, `acquire`, `like`, `unlike`,
-- `takedown` and `restore`.
use ggumirror_be.Base.{ℕ, ◌≡◌, refl, ap, false, inl, inr, some, none, [], ◌∷◌, Option-cases, if-all}
use ggumirror_be.Base.Int.{ℤ, pos, neg, ◌+ℤ◌, ◌-ℤ◌}
use ggumirror_be.Base.Text.{Text, text_eq, ◌==◌}
use ggumirror_be.Base.Dict.{get, insert, contains}
use ggumirror_be.Base.Exec.{Result, ok, err, Result-cases}
use ggumirror_be.Marketplace.Models.{
  Python, Listing, NotificationEvent, Ownership, ModerationReason, is_published, is_terminal,
  is_moderated, is_draft, fee, fee_reason, like_id, ownership_id, moderation_compensation,
}
use ggumirror_be.Marketplace.Market.{
  Market, own_listing, get_published, any_listing, put_listing, market_transaction, put_shards,
}
use ggumirror_be.Marketplace.Publish.{
  PublishResult, publish, publish_own, publish_checks, publish_charge,
}
use ggumirror_be.Marketplace.Acquire.{
  Payment, PurchaseResult, acquire, acquire_paid, acquire_commit, write_ownership, write_counter,
  write_notification, with_download_count,
}
use ggumirror_be.Marketplace.Likes.{
  LikeResult, like, unlike, checked_like_count, with_like_count, add_like, remove_like, is_zero,
}
use ggumirror_be.Marketplace.Moderation.{
  ModerationResult, takedown, takedown_listed, takedown_paid_for, write_takedown, restore,
  restore_listed, restored_listing, removed_listing, record_event, block_source, unblock_source,
}
use ggumirror_be.Marketplace.Titles.{IsTitled, retitled-IsTitled}
use ggumirror_be.Marketplace.TitleSteps.{
  own_listing-found, get_published-found, any_listing-found, publish_commit-IsTitled,
}
use ggumirror_be.Marketplace.Settling.{market_commit-all}
use ggumirror_be.Shards.Staging.{scoped_change-AllTotal, staged_total}
use ggumirror_be.Marketplace.Failures.{PaymentTotal, pay-total}
use ggumirror_be.Shards.Models.{marketplace_moderation_compensation}
use ggumirror_be.Shards.Scoped.{Staged, context}
use ggumirror_be.Shards.Service.{scoped_change}
use ggumirror_be.Transaction.{commit, run_writes}
use ggumirror_be.Transaction.Total.{AllTotal}

module _ (py : Python) (m : Market) (h : IsTitled py m) where
  publish_charge-IsTitled :
      (l : Listing) (id : Text) (now : ℕ)
      → get id m.listings ≡ some l
      → publish_checks py m l ≡ ok tt
      → IsTitled py (publish_charge py m l now).1
  unfolding publish_charge
  publish_charge-IsTitled l id now found passed =
      let change =
        scoped_change py.sha256 m.shards context l.seller_user_id (neg (pos (fee l.content_type)))
          (fee_reason l.content_type) l.id now in
      if-all (λ (out : Result PublishResult × Market). IsTitled py out.1) l.publish_fee_paid _ _
        (publish_commit-IsTitled py m h l id [] _ false now tt found passed)
        (elim (Result-cases change) [
          | inr (x, e) ↦ rw e h
          | inl (st, e) ↦ rw e (
              publish_commit-IsTitled py m h l id st.context.transaction.writes st.wallet.balance
                st.applied now
                (staged_total change st e (
                  scoped_change-AllTotal py.sha256 m.shards context l.seller_user_id _ _ l.id now
                    tt))
                found passed)
        ])

  pub publish-IsTitled : (id seller : Text) (now : ℕ) → IsTitled py (publish py id seller now m).1
  unfolding publish publish_own
  publish-IsTitled id seller now = elim (Result-cases (own_listing m id seller)) [
    | inr (x, e) ↦ rw e h
    | inl (l, e) ↦
        let P = λ (out : Result PublishResult × Market). IsTitled py out.1 in
        rw e (
          if-all P (is_terminal l.status) _ _ h (
            if-all P (is_moderated l) _ _ h (
              if-all P (is_published l.status) _ _ h (elim (Result-cases (publish_checks py m l)) [
                | inr (x, refused) ↦ rw refused h
                | inl (tt, passed) ↦
                    rw passed
                      (publish_charge-IsTitled l id now (own_listing-found m id seller l e) passed)
              ]))))
  ]

  purchase_writes-IsTitled :
      (id : Text) (l : Listing) (count : ℤ) (key : Text) (o : Ownership) (sale : NotificationEvent)
      (p : Payment)
      → AllTotal p.writes
      → get key m.ownership_records ≡ none
      → get id m.listings ≡ some l
      → IsTitled py
          (commit
            (market_transaction p.writes (
              write_ownership key o
              ∷ write_counter id (with_download_count l count)
              ∷ write_notification sale
              ∷ []))
            m).2
  unfolding run_writes write_ownership write_counter write_notification put_shards
      with_download_count
  purchase_writes-IsTitled id l count key o sale p total fresh found =
      market_commit-all (λ out. IsTitled py out.1) p.writes
        (write_ownership key o
          ∷ write_counter id (with_download_count l count)
          ∷ write_notification sale
          ∷ [])
        m total
        (λ s undos.
          rw (fresh, run_writes, write_ownership)
            (retitled-IsTitled py m _ id l (with_download_count l count) h found refl refl refl refl
              (λ live. live)))

  acquire_paid-IsTitled :
      (id : Text) (l : Listing) (key buyer : Text) (now : ℕ) (r : Result Payment)
      → PaymentTotal r
      → get key m.ownership_records ≡ none
      → get id m.listings ≡ some l
      → IsTitled py (acquire_paid py id m l key buyer now r).1
  unfolding acquire_commit
  acquire_paid-IsTitled id l key buyer now (err e) total fresh found = h
  acquire_paid-IsTitled id l key buyer now (ok p) total fresh found =
      purchase_writes-IsTitled id l (l.download_count +ℤ pos 1) key _ _ p total fresh found

  pub acquire-IsTitled : (id buyer : Text) (now : ℕ) → IsTitled py (acquire py id buyer now m).1
  unfolding acquire
  acquire-IsTitled id buyer now = elim (Result-cases (get_published m id)) [
    | inr (x, e) ↦ rw e h
    | inl (l, e) ↦ elim (Option-cases (get (ownership_id py buyer id) m.ownership_records)) [
      | inr (o, have) ↦ rw (e, have) h
      | inl fresh ↦
          rw (e, fresh)
            (if-all (λ (out : Result PurchaseResult × Market). IsTitled py out.1)
              (l.seller_user_id == buyer) _ _ h
              (acquire_paid-IsTitled id l (ownership_id py buyer id) buyer now _
                (pay-total py m.shards l (ownership_id py buyer id) buyer now) fresh
                (get_published-found m id l e)))
    ]
  ]

  pub like-IsTitled : (id user : Text) (now : ℕ) → IsTitled py (like py id user now m).1
  unfolding like add_like with_like_count
  like-IsTitled id user now = elim (Result-cases (get_published m id)) [
    | inr (x, e) ↦ rw e h
    | inl (l, e) ↦
        let P = λ (out : Result LikeResult × Market). IsTitled py out.1 in
        rw e (
          if-all P (contains (like_id py user id) m.likes_by_id) _ _ h (
            if-all P (l.seller_user_id == user) _ _ h (elim (Result-cases (checked_like_count l)) [
              | inr (x, negative) ↦ rw negative h
              | inl (n, counted) ↦ rw counted (
                  retitled-IsTitled py m _ id l (with_like_count l (n +ℤ pos 1)) h
                    (get_published-found m id l e) refl refl refl refl (λ p. p))
            ])))
  ]

  pub unlike-IsTitled : (id user : Text) → IsTitled py (unlike py id user m).1
  unfolding unlike remove_like with_like_count
  unlike-IsTitled id user = elim (Option-cases (get id m.listings)) [
    | inl e ↦ rw e h
    | inr (l, e) ↦
        let P = λ (out : Result LikeResult × Market). IsTitled py out.1 in
        rw e (
          if-all P (is_draft l.status) _ _ h (elim (Result-cases (checked_like_count l)) [
            | inr (x, negative) ↦ rw negative h
            | inl (n, counted) ↦ rw counted (
                if-all P (contains (like_id py user id) m.likes_by_id) _ _
                  (if-all P (is_zero n) _ _ h (
                    retitled-IsTitled py m _ id l (with_like_count l (n -ℤ pos 1)) h e refl refl
                      refl refl (λ p. p)))
                  h)
          ]))
  ]

  takedown_commit-IsTitled :
      (fresh id : Text) (l : Listing) (actor : Text) (reason : ModerationReason) (note : Text)
      (now : ℕ) (st : Staged)
      → AllTotal st.context.transaction.writes
      → get id m.listings ≡ some l
      → IsTitled py (takedown_paid_for py fresh l actor reason note now m (ok st)).1
  unfolding write_takedown run_writes put_shards put_listing record_event block_source
      removed_listing
  takedown_commit-IsTitled fresh id l actor reason note now st total found =
      market_commit-all (λ out. IsTitled py out.1) st.context.transaction.writes [] _ total
        (λ s undos.
          retitled-IsTitled py m _ id l (removed_listing l reason actor now) h found
            (ap (λ (k : Text). insert k (removed_listing l reason actor now) m.listings)
              (h.named id l found))
            refl refl refl (λ p. p))

  pub takedown-IsTitled :
      (fresh id actor : Text) (reason : ModerationReason) (note : Text) (now : ℕ)
      → IsTitled py (takedown py fresh id actor reason note now m).1
  unfolding takedown takedown_listed
  takedown-IsTitled fresh id actor reason note now = elim (Result-cases (any_listing m id)) [
    | inr (x, e) ↦ rw e h
    | inl (l, e) ↦
        let change =
          scoped_change py.sha256 m.shards context l.seller_user_id (pos moderation_compensation)
            marketplace_moderation_compensation l.id now in
        rw e (
          if-all (λ (out : Result ModerationResult × Market). IsTitled py out.1) (is_moderated l) _
            _ h
            (elim (Result-cases change) [
              | inr (x, refused) ↦ rw refused h
              | inl (st, paid) ↦ rw paid (
                  takedown_commit-IsTitled fresh id l actor reason note now st
                    (staged_total change st paid (
                      scoped_change-AllTotal py.sha256 m.shards context l.seller_user_id _ _ l.id
                        now tt))
                    (any_listing-found m id l e))
            ]))
  ]

  pub restore-IsTitled :
      (fresh id actor : Text) (now : ℕ) → IsTitled py (restore py fresh id actor now m).1
  unfolding restore restore_listed put_listing record_event unblock_source restored_listing
  restore-IsTitled fresh id actor now = elim (Result-cases (any_listing m id)) [
    | inr (x, e) ↦ rw e h
    | inl (l, e) ↦
        let P = λ (out : Result ModerationResult × Market). IsTitled py out.1 in
        let found : get id m.listings ≡ some l = any_listing-found m id l e in
        rw e (
          if-all P (is_terminal l.status) _ _ h (
            if-all P (is_moderated l) _ _
              (retitled-IsTitled py m _ id l (restored_listing l actor now) h found
                (ap (λ (k : Text). insert k (restored_listing l actor now) m.listings)
                  (h.named id l found))
                refl refl refl (λ p. p))
              h))
  ]
