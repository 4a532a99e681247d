-- ===== src/Marketplace/Failures.antt =====
-- A purchase that raises (app/marketplace/store.py, `acquire`).
use ggumirror_be.Base.{ℕ, ◌≡◌, refl, true, false, inl, inr, none, [], ◌∷◌, Bool-cases, Option-cases}
use ggumirror_be.Base.Int.{pos, neg, ltb_ℤ}
use ggumirror_be.Base.Text.{Text, text_eq, ◌==◌}
use ggumirror_be.Base.Dict.{get}
use ggumirror_be.Base.Exec.{Result, ok, err, is_ok, Result-cases}
use ggumirror_be.Marketplace.Models.{
  Python, Listing, Ownership, NotificationEvent, ownership_id, purchase_reason, sale_reason,
}
use ggumirror_be.Marketplace.Market.{Market, get_published, market_transaction, put_shards}
use ggumirror_be.Marketplace.Acquire.{
  Payment, acquire, acquire_commit, acquire_paid, pay, pay_priced, pay_free, write_ownership,
  write_counter, write_notification,
}
use ggumirror_be.Marketplace.Settling.{market_commit}
use ggumirror_be.Shards.Staging.{scoped_change-AllTotal, staged_total}
use ggumirror_be.Shards.Store.{ShardStore}
use ggumirror_be.Shards.Scoped.{context}
use ggumirror_be.Shards.Service.{scoped_change}
use ggumirror_be.Transaction.{commit, run_writes}
use ggumirror_be.Transaction.Total.{AllTotal}

abbrev pub PaymentTotal : Result Payment → Type 0
PaymentTotal (err e) = Unit {0}
PaymentTotal (ok p) = AllTotal p.writes

module _ (py : Python) where
  pay_priced-total :
      (s : ShardStore) (l : Listing) (key buyer : Text) (now : ℕ)
      → PaymentTotal (pay_priced py s l key buyer now)
  unfolding pay_priced
  pay_priced-total s l key buyer now =
      let debit =
        scoped_change py.sha256 s context buyer (neg l.price_shards)
          (purchase_reason l.content_type) key now in
      elim (Result-cases debit) [
        | inr (x, e) ↦ rw e tt
        | inl (st, e) ↦
            let first : AllTotal st.context.transaction.writes = staged_total debit st e (
              scoped_change-AllTotal py.sha256 s context buyer (neg l.price_shards)
                (purchase_reason l.content_type) key now tt) in
            let credit =
              scoped_change py.sha256 s st.context l.seller_user_id l.price_shards
                (sale_reason l.content_type) key now in
            elim (Result-cases credit) [
              | inr (x, e') ↦ rw (e, e') tt
              | inl (st', e') ↦
                  rw (e, e')
                    (staged_total credit st' e' (
                      scoped_change-AllTotal py.sha256 s st.context l.seller_user_id l.price_shards
                        (sale_reason l.content_type) key now first))
            ]
      ]

  pub pay-total :
      (s : ShardStore) (l : Listing) (key buyer : Text) (now : ℕ)
      → PaymentTotal (pay py s l key buyer now)
  unfolding pay pay_free
  pay-total s l key buyer now = elim (Bool-cases (ltb_ℤ (pos 0) l.price_shards)) [
    | inl priced ↦ rw priced (pay_priced-total s l key buyer now)
    | inr free ↦ rw free tt
  ]

  purchase_writes-ok :
      (id key : Text) (o : Ownership) (counted : Listing) (sale : NotificationEvent) (m : Market)
      (p : Payment)
      → AllTotal p.writes
      → get key m.ownership_records ≡ none
      → (commit
          (market_transaction p.writes
            (write_ownership key o ∷ write_counter id counted ∷ write_notification sale ∷ []))
          m).0
        ≡ ok tt
  unfolding write_ownership write_counter write_notification run_writes put_shards
  purchase_writes-ok id key o counted sale m p total fresh =
      market_commit p.writes
        (write_ownership key o ∷ write_counter id counted ∷ write_notification sale ∷ []) m total
        (λ s undos. rw (fresh, run_writes, write_ownership) refl)

  acquire_commit-ok :
      (id : Text) (m : Market) (l : Listing) (key buyer : Text) (now : ℕ) (p : Payment)
      → AllTotal p.writes
      → get key m.ownership_records ≡ none
      → is_ok (acquire_commit py id m l key buyer now p).0 ≡ true
  unfolding acquire_commit
  acquire_commit-ok id m l key buyer now p total fresh =
      rw (purchase_writes-ok id key _ _ _ m p total fresh) refl

  acquire_paid-unchanged :
      (id : Text) (m : Market) (l : Listing) (key buyer : Text) (now : ℕ) (r : Result Payment)
      → PaymentTotal r
      → get key m.ownership_records ≡ none
      → is_ok (acquire_paid py id m l key buyer now r).0 ≡ false
      → (acquire_paid py id m l key buyer now r).1 ≡ m
  acquire_paid-unchanged id m l key buyer now (err e) total fresh failed = refl
  acquire_paid-unchanged id m l key buyer now (ok p) total fresh failed =
      cc (acquire_commit-ok id m l key buyer now p total fresh)

-- A purchase that raises, for whatever reason, leaves listings, ownerships, notifications and the
-- whole ledger as they were.
pub acquire_unchanged :
    (py : Python) (id buyer : Text) (now : ℕ) (m : Market)
    → is_ok (acquire py id buyer now m).0 ≡ false
    → (acquire py id buyer now m).1 ≡ m
unfolding acquire
acquire_unchanged py id buyer now m = elim (Result-cases (get_published m id)) [
  | inr (x, e) ↦ rw e (λ _. refl)
  | inl (l, e) ↦ elim (Option-cases (get (ownership_id py buyer id) m.ownership_records)) [
    | inr (o, have) ↦ rw (e, have) (λ failed. cc)
    | inl fresh ↦ elim (Bool-cases (l.seller_user_id == buyer)) [
      | inl own ↦ rw (e, fresh, own) (λ _. refl)
      | inr other ↦
          rw (e, fresh, other)
            (acquire_paid-unchanged py id m l (ownership_id py buyer id) buyer now _
              (pay-total py m.shards l (ownership_id py buyer id) buyer now) fresh)
    ]
  ]
]
