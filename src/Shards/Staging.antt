-- ===== src/Shards/Staging.antt =====
-- The writes that `apply_in_transaction` stages (app/shards/store.py and service.py).
use ggumirror_be.Base.{◌≡◌, refl, Bool-cases, Option-cases, inl, inr, ℕ}
use ggumirror_be.Base.Int.{ℤ, pos, ◌+ℤ◌, ltb_ℤ}
use ggumirror_be.Base.Text.{Text, text_eq}
use ggumirror_be.Base.Dict.{get}
use ggumirror_be.Base.Exec.{Result, ok, err, Result-cases}
use ggumirror_be.Shards.Models.{ShardReason}
use ggumirror_be.Shards.Keys.{idempotency_hash}
use ggumirror_be.Shards.Store.{ShardStore, wallet}
use ggumirror_be.Shards.Scoped.{
  ShardTransactionContext, Staged, staged_write, apply_in_transaction, claim_wallet, member,
}
use ggumirror_be.Shards.Service.{scoped_change, moved}
use ggumirror_be.Transaction.{add}
use ggumirror_be.Transaction.Total.{AllTotal, AllTotal-append}

abbrev pub StagedTotal : Result Staged → Type 0
StagedTotal (err e) = Unit {0}
StagedTotal (ok st) = AllTotal st.context.transaction.writes

pub apply_in_transaction-AllTotal :
    (s : ShardStore) (c : ShardTransactionContext) (u : Text) (delta : ℤ) (reason : ShardReason)
    (key : Text) (now : ℕ)
    → AllTotal c.transaction.writes
    → StagedTotal (apply_in_transaction s c u delta reason key now)
unfolding apply_in_transaction claim_wallet add staged_write
apply_in_transaction-AllTotal s c u delta reason key now h =
    elim (Option-cases (get key s.applied)) [
      | inr (e, found) ↦ rw found h
      | inl free ↦ elim (Bool-cases (member u c.changed_wallets)) [
        | inl changed ↦ rw (free, changed) tt
        | inr fresh ↦ elim (Bool-cases (ltb_ℤ ((wallet s now u).balance +ℤ delta) (pos 0))) [
          | inl short ↦ rw (free, fresh, short) tt
          | inr fits ↦
              rw (free, fresh, fits) (AllTotal-append c.transaction.writes _ h (λ w. (_, refl)))
        ]
      ]
    ]

pub scoped_change-AllTotal :
    (sha256 : Text → Text) (s : ShardStore) (c : ShardTransactionContext) (u : Text) (delta : ℤ)
    (reason : ShardReason) (event : Text) (now : ℕ)
    → AllTotal c.transaction.writes
    → StagedTotal (scoped_change sha256 s c u delta reason event now)
unfolding scoped_change
scoped_change-AllTotal sha256 s c u delta reason event now h = elim (Result-cases (moved delta)) [
  | inl (amount, e) ↦ rw e (
      apply_in_transaction-AllTotal s c u amount reason (idempotency_hash sha256 u reason event) now
        h)
  | inr (x, e) ↦ rw e tt
]

-- A change that went through holds writes that never raise.
pub staged_total :
    (r : Result Staged) (st : Staged)
    → r ≡ ok st
    → StagedTotal r
    → AllTotal st.context.transaction.writes
staged_total r st e h = rw e at h
