-- ===== src/Marketplace/Books.antt =====
-- The books of the ledger under the operations of app/marketplace/store.py.
use ggumirror_be.Base.{
  ℕ, ◌≡◌, Bool, false, inl, inr, none, List, [], ◌∷◌, Bool-cases, Option-cases, if-all,
}
use ggumirror_be.Base.Int.{ℤ, pos, neg, ltb_ℤ}
use ggumirror_be.Base.Text.{Text, text_eq, ◌==◌}
use ggumirror_be.Base.Dict.{get}
use ggumirror_be.Base.Exec.{Result, ok, err, Result-cases}
use ggumirror_be.Marketplace.Models.{
  Python, Listing, NotificationEvent, Ownership, ModerationReason, is_published, is_terminal,
  is_moderated, listing_title_key, fee, fee_reason, ownership_id, moderation_compensation,
  purchase_reason, sale_reason,
}
use ggumirror_be.Marketplace.Market.{
  Market, own_listing, get_published, any_listing, put_listing, market_transaction, put_shards,
}
use ggumirror_be.Marketplace.Publish.{
  PublishResult, publish, publish_own, publish_checks, publish_charge, publish_commit,
  write_listing, claim_title, published_listing,
}
use ggumirror_be.Marketplace.Acquire.{
  Payment, PurchaseResult, acquire, acquire_paid, acquire_commit, pay, pay_priced, pay_free,
  write_ownership, write_counter, write_notification,
}
use ggumirror_be.Marketplace.Moderation.{
  ModerationResult, takedown, takedown_listed, takedown_paid_for, write_takedown, record_event,
  block_source,
}
use ggumirror_be.Marketplace.Settling.{market_commit-final}
use ggumirror_be.Shards.Models.{marketplace_moderation_compensation}
use ggumirror_be.Shards.Store.{ShardStore}
use ggumirror_be.Shards.Scoped.{Staged, context}
use ggumirror_be.Shards.Service.{scoped_change}
use ggumirror_be.Shards.Ledger.{IsSound}
use ggumirror_be.Shards.Waiting.{Waits, context-Waits, scoped_change-Waits, staged_waits}
use ggumirror_be.Transaction.{Write, commit, run_writes}
use ggumirror_be.Transaction.Total.{AllTotal, final_state}

-- Ledger writes that never raise and keep the books.
pub record Keeps (s : ShardStore) (writes : List (Write ShardStore)) : Type 0 where
  pub total : AllTotal writes
  pub sound : IsSound (final_state writes s)

abbrev PaymentKeeps : ShardStore → Result Payment → Type 0
PaymentKeeps s (err e) = Unit {0}
PaymentKeeps s (ok p) = Keeps s p.writes

Waits-Keeps :
    (s : ShardStore) (st : Staged) → Waits s st.context → Keeps s st.context.transaction.writes
Waits-Keeps s st h = record { total = h.total; sound = h.sound }

nothing-Keeps : (s : ShardStore) → IsSound s → Keeps s []
unfolding final_state
nothing-Keeps s h = record { total = tt; sound = h }

module _ (py : Python) (m : Market) (sound : IsSound m.shards) where
  pay_priced-Keeps :
      (l : Listing) (key buyer : Text) (now : ℕ)
      → PaymentKeeps m.shards (pay_priced py m.shards l key buyer now)
  unfolding pay_priced
  pay_priced-Keeps l key buyer now =
      let debit =
        scoped_change py.sha256 m.shards context buyer (neg l.price_shards)
          (purchase_reason l.content_type) key now in
      elim (Result-cases debit) [
        | inr (x, e) ↦ rw e tt
        | inl (st, e) ↦
            let first : Waits m.shards st.context = staged_waits m.shards debit st e (
              scoped_change-Waits py.sha256 m.shards context buyer (neg l.price_shards)
                (purchase_reason l.content_type) key now sound (context-Waits m.shards sound)) in
            let credit =
              scoped_change py.sha256 m.shards st.context l.seller_user_id l.price_shards
                (sale_reason l.content_type) key now in
            elim (Result-cases credit) [
              | inr (x, e') ↦ rw (e, e') tt
              | inl (st', e') ↦
                  rw (e, e')
                    (Waits-Keeps m.shards st' (
                      staged_waits m.shards credit st' e' (
                        scoped_change-Waits py.sha256 m.shards st.context l.seller_user_id
                          l.price_shards (sale_reason l.content_type) key now sound first)))
            ]
      ]

  pay-Keeps :
      (l : Listing) (key buyer : Text) (now : ℕ)
      → PaymentKeeps m.shards (pay py m.shards l key buyer now)
  unfolding pay pay_free
  pay-Keeps l key buyer now = elim (Bool-cases (ltb_ℤ (pos 0) l.price_shards)) [
    | inl priced ↦ rw priced (pay_priced-Keeps l key buyer now)
    | inr free ↦ rw free (nothing-Keeps m.shards sound)
  ]

  purchase_writes-books :
      (id key : Text) (o : Ownership) (counted : Listing) (sale : NotificationEvent) (p : Payment)
      → Keeps m.shards p.writes
      → get key m.ownership_records ≡ none
      → IsSound
          (commit
            (market_transaction p.writes
              (write_ownership key o ∷ write_counter id counted ∷ write_notification sale ∷ []))
            m).2.shards
  unfolding run_writes write_ownership write_counter write_notification put_shards
  purchase_writes-books id key o counted sale p h fresh =
      market_commit-final (λ out. IsSound out.1.shards) p.writes
        (write_ownership key o ∷ write_counter id counted ∷ write_notification sale ∷ []) m h.total
        (λ undos. rw (fresh, run_writes, write_ownership) h.sound)

  acquire_paid-books :
      (id : Text) (l : Listing) (key buyer : Text) (now : ℕ) (r : Result Payment)
      → PaymentKeeps m.shards r
      → get key m.ownership_records ≡ none
      → IsSound (acquire_paid py id m l key buyer now r).1.shards
  unfolding acquire_commit
  acquire_paid-books id l key buyer now (err e) h fresh = sound
  acquire_paid-books id l key buyer now (ok p) h fresh =
      purchase_writes-books id key _ _ _ p h fresh

  pub acquire-books : (id buyer : Text) (now : ℕ) → IsSound (acquire py id buyer now m).1.shards
  unfolding acquire
  acquire-books id buyer now = elim (Result-cases (get_published m id)) [
    | inr (x, e) ↦ rw e sound
    | inl (l, e) ↦ elim (Option-cases (get (ownership_id py buyer id) m.ownership_records)) [
      | inr (o, have) ↦ rw (e, have) sound
      | inl fresh ↦
          rw (e, fresh)
            (if-all (λ (out : Result PurchaseResult × Market). IsSound out.1.shards)
              (l.seller_user_id == buyer) _ _ sound
              (acquire_paid-books id l (ownership_id py buyer id) buyer now _
                (pay-Keeps l (ownership_id py buyer id) buyer now) fresh))
    ]
  ]

  publish_commit-books :
      (l : Listing) (shard_writes : List (Write ShardStore)) (balance : ℤ) (charged : Bool)
      (now : ℕ)
      → Keeps m.shards shard_writes
      → IsSound (publish_commit py m l shard_writes balance charged now).1.shards
  unfolding publish_commit run_writes write_listing claim_title put_shards
  publish_commit-books l shard_writes balance charged now h =
      market_commit-final (λ out. IsSound out.1.shards) shard_writes
        (write_listing (published_listing l now)
          ∷ claim_title (listing_title_key py l.title) l.id
          ∷ [])
        m h.total (λ undos. h.sound)

  publish_charge-books : (l : Listing) (now : ℕ) → IsSound (publish_charge py m l now).1.shards
  unfolding publish_charge
  publish_charge-books l now =
      let change =
        scoped_change py.sha256 m.shards context l.seller_user_id (neg (pos (fee l.content_type)))
          (fee_reason l.content_type) l.id now in
      if-all (λ (out : Result PublishResult × Market). IsSound out.1.shards) l.publish_fee_paid _ _
        (publish_commit-books l [] _ false now (nothing-Keeps m.shards sound))
        (elim (Result-cases change) [
          | inr (x, e) ↦ rw e sound
          | inl (st, e) ↦ rw e (
              publish_commit-books l st.context.transaction.writes st.wallet.balance st.applied now
                (Waits-Keeps m.shards st (
                  staged_waits m.shards change st e (
                    scoped_change-Waits py.sha256 m.shards context l.seller_user_id _ _ l.id now
                      sound (context-Waits m.shards sound)))))
        ])

  pub publish-books : (id seller : Text) (now : ℕ) → IsSound (publish py id seller now m).1.shards
  unfolding publish publish_own
  publish-books id seller now = elim (Result-cases (own_listing m id seller)) [
    | inr (x, e) ↦ rw e sound
    | inl (l, e) ↦
        let P = λ (out : Result PublishResult × Market). IsSound out.1.shards in
        rw e (
          if-all P (is_terminal l.status) _ _ sound (
            if-all P (is_moderated l) _ _ sound (
              if-all P (is_published l.status) _ _ sound
                (elim (Result-cases (publish_checks py m l)) [
                  | inr (x, refused) ↦ rw refused sound
                  | inl (u, passed) ↦ rw passed (publish_charge-books l now)
                ]))))
  ]

  takedown_commit-books :
      (fresh : Text) (l : Listing) (actor : Text) (reason : ModerationReason) (note : Text)
      (now : ℕ) (st : Staged)
      → Keeps m.shards st.context.transaction.writes
      → IsSound (takedown_paid_for py fresh l actor reason note now m (ok st)).1.shards
  unfolding write_takedown run_writes put_shards put_listing record_event block_source
  takedown_commit-books fresh l actor reason note now st h =
      market_commit-final (λ out. IsSound out.1.shards) st.context.transaction.writes [] _ h.total
        (λ undos. h.sound)

  pub takedown-books :
      (fresh id actor : Text) (reason : ModerationReason) (note : Text) (now : ℕ)
      → IsSound (takedown py fresh id actor reason note now m).1.shards
  unfolding takedown takedown_listed
  takedown-books fresh id actor reason note now = elim (Result-cases (any_listing m id)) [
    | inr (x, e) ↦ rw e sound
    | inl (l, e) ↦
        let change =
          scoped_change py.sha256 m.shards context l.seller_user_id (pos moderation_compensation)
            marketplace_moderation_compensation l.id now in
        rw e (
          if-all (λ (out : Result ModerationResult × Market). IsSound out.1.shards) (is_moderated l)
            _ _ sound
            (elim (Result-cases change) [
              | inr (x, refused) ↦ rw refused sound
              | inl (st, paid) ↦ rw paid (
                  takedown_commit-books fresh l actor reason note now st (
                    Waits-Keeps m.shards st (
                      staged_waits m.shards change st paid (
                        scoped_change-Waits py.sha256 m.shards context l.seller_user_id _ _ l.id now
                          sound (context-Waits m.shards sound)))))
            ]))
  ]
