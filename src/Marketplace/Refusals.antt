-- ===== src/Marketplace/Refusals.antt =====
-- A publication or a takedown that raises (app/marketplace/store.py, `publish` and `takedown`).
use ggumirror_be.Base.{ℕ, ◌≡◌, refl, Bool, true, false, inl, inr, List, [], ◌∷◌, Bool-cases, if-all}
use ggumirror_be.Base.Int.{ℤ, pos, neg}
use ggumirror_be.Base.Text.{Text, text_eq}
use ggumirror_be.Base.Exec.{Result, ok, is_ok, Result-cases}
use ggumirror_be.Marketplace.Models.{
  Python, Listing, ModerationReason, is_terminal, is_published, is_moderated, fee, fee_reason,
  moderation_compensation,
}
use ggumirror_be.Marketplace.Market.{Market, own_listing, any_listing, market_transaction}
use ggumirror_be.Marketplace.Publish.{
  PublishResult, publish, publish_own, publish_checks, publish_charge, publish_commit,
  write_listing, claim_title,
}
use ggumirror_be.Marketplace.Moderation.{
  ModerationResult, takedown, takedown_listed, takedown_paid_for, write_takedown,
}
use ggumirror_be.Marketplace.Settling.{market_commit}
use ggumirror_be.Shards.Staging.{scoped_change-AllTotal, staged_total}
use ggumirror_be.Shards.Models.{marketplace_moderation_compensation}
use ggumirror_be.Shards.Store.{ShardStore, wallet}
use ggumirror_be.Shards.Scoped.{Staged, context}
use ggumirror_be.Shards.Service.{scoped_change}
use ggumirror_be.Transaction.{Write, commit, run_writes}
use ggumirror_be.Transaction.Total.{AllTotal}

module _ (py : Python) where
  publish_writes-ok :
      (l' : Listing) (key id : Text) (m : Market) (shard_writes : List (Write ShardStore))
      → AllTotal shard_writes
      → (commit (market_transaction shard_writes (write_listing l' ∷ claim_title key id ∷ [])) m).0
        ≡ ok tt
  unfolding write_listing claim_title run_writes
  publish_writes-ok l' key id m shard_writes total =
      market_commit shard_writes (write_listing l' ∷ claim_title key id ∷ []) m total
        (λ s undos. refl)

  publish_commit-ok :
      (m : Market) (l : Listing) (shard_writes : List (Write ShardStore)) (balance : ℤ)
      (charged : Bool) (now : ℕ)
      → AllTotal shard_writes
      → is_ok (publish_commit py m l shard_writes balance charged now).0 ≡ true
  unfolding publish_commit
  publish_commit-ok m l shard_writes balance charged now total =
      rw (publish_writes-ok _ _ _ m shard_writes total) refl

  publish_charge-unchanged :
      (m : Market) (l : Listing) (now : ℕ)
      → is_ok (publish_charge py m l now).0 ≡ false
      → (publish_charge py m l now).1 ≡ m
  unfolding publish_charge
  publish_charge-unchanged m l now =
      let change =
        scoped_change py.sha256 m.shards context l.seller_user_id (neg (pos (fee l.content_type)))
          (fee_reason l.content_type) l.id now in
      if-all (λ (out : Result PublishResult × Market). is_ok out.0 ≡ false → out.1 ≡ m)
        l.publish_fee_paid _ _
        (λ failed.
          cc (publish_commit-ok m l [] (wallet m.shards now l.seller_user_id).balance false now tt))
        (elim (Result-cases change) [
          | inr (x, e) ↦ rw e (λ _. refl)
          | inl (st, e) ↦
              let total : AllTotal st.context.transaction.writes = staged_total change st e (
                scoped_change-AllTotal py.sha256 m.shards context l.seller_user_id _ _ l.id now
                  tt) in
              rw e (λ failed. cc (
                publish_commit-ok m l st.context.transaction.writes st.wallet.balance st.applied now
                  total))
        ])

-- A publication that raises charges nothing, takes no title and changes no listing.
pub publish_unchanged :
    (py : Python) (id seller : Text) (now : ℕ) (m : Market)
    → is_ok (publish py id seller now m).0 ≡ false
    → (publish py id seller now m).1 ≡ m
unfolding publish publish_own
publish_unchanged py id seller now m = elim (Result-cases (own_listing m id seller)) [
  | inr (x, e) ↦ rw e (λ _. refl)
  | inl (l, e) ↦ elim (Bool-cases (is_terminal l.status)) [
    | inl gone ↦ rw (e, gone) (λ _. refl)
    | inr live ↦ elim (Bool-cases (is_moderated l)) [
      | inl held ↦ rw (e, live, held) (λ _. refl)
      | inr free ↦ elim (Bool-cases (is_published l.status)) [
        | inl already ↦ rw (e, live, free, already) (λ failed. cc)
        | inr hidden ↦ elim (Result-cases (publish_checks py m l)) [
          | inr (x, refused) ↦ rw (e, live, free, hidden, refused) (λ _. refl)
          | inl (u, passed) ↦
              rw (e, live, free, hidden, passed) (publish_charge-unchanged py m l now)
        ]
      ]
    ]
  ]
]

takedown_commit-ok :
    (py : Python) (fresh : Text) (l : Listing) (actor : Text) (reason : ModerationReason)
    (note : Text) (now : ℕ) (m : Market) (st : Staged)
    → AllTotal st.context.transaction.writes
    → is_ok (takedown_paid_for py fresh l actor reason note now m (ok st)).0 ≡ true
unfolding write_takedown run_writes
takedown_commit-ok py fresh l actor reason note now m st total =
    rw (market_commit st.context.transaction.writes [] _ total (λ s undos. refl)) refl

-- A takedown that raises changes nothing: no status, no block, no record, no notification and no
-- compensation.
pub takedown_unchanged :
    (py : Python) (fresh id actor : Text) (reason : ModerationReason) (note : Text) (now : ℕ)
    (m : Market)
    → is_ok (takedown py fresh id actor reason note now m).0 ≡ false
    → (takedown py fresh id actor reason note now m).1 ≡ m
unfolding takedown takedown_listed write_takedown
takedown_unchanged py fresh id actor reason note now m = elim (Result-cases (any_listing m id)) [
  | inr (x, e) ↦ rw e (λ _. refl)
  | inl (l, e) ↦
      let change =
        scoped_change py.sha256 m.shards context l.seller_user_id (pos moderation_compensation)
          marketplace_moderation_compensation l.id now in
      rw e (
        if-all (λ (out : Result ModerationResult × Market). is_ok out.0 ≡ false → out.1 ≡ m)
          (is_moderated l) _ _ (λ failed. cc)
          (elim (Result-cases change) [
            | inr (x, e') ↦ rw e' (λ _. refl)
            | inl (st, e') ↦
                let total : AllTotal st.context.transaction.writes = staged_total change st e' (
                  scoped_change-AllTotal py.sha256 m.shards context l.seller_user_id _ _ l.id now
                    tt) in
                rw e'
                  (λ failed. cc (takedown_commit-ok py fresh l actor reason note now m st total))
          ]))
]
