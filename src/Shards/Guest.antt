-- ===== src/Shards/Guest.antt =====
-- app/shards/store.py, `claim_guest_wallet` and `stage_guest_claim`: a guest's wallet is handed
-- over to an account by two ledger lines in one transaction.
use ggumirror_be.Base.{ℕ, if◌then◌else◌}
use ggumirror_be.Base.Int.{ℤ, pos, neg, leb_ℤ}
use ggumirror_be.Base.Text.{Text, text_eq, ◌==◌}
use ggumirror_be.Base.Exec.{Result, ok, err, guest_claim_broken}
use ggumirror_be.Shards.Models.{guest_claim}
use ggumirror_be.Shards.Keys.{idempotency_hash}
use ggumirror_be.Shards.Store.{ShardStore, wallet}
use ggumirror_be.Shards.Scoped.{ShardTransactionContext, context, Staged, apply_in_transaction}
use ggumirror_be.Transaction.{commit}

pub record Moved : Type 0 where
  pub amount : ℤ
  pub context : ShardTransactionContext

abbrev pub credited_or : ℤ → Result Staged → Result Moved
credited_or amount (err e) = err e
credited_or amount (ok st) =
    if st.applied
    then ok (record { amount = amount; context = st.context })
    else err guest_claim_broken

module _ (sha256 : Text → Text) where
  abbrev pub guest_key : Text → Text → Text
  guest_key u other = idempotency_hash sha256 u guest_claim other

  abbrev pub debited_or : ShardStore → Text → Text → ℤ → ℕ → Result Staged → Result Moved
  debited_or s guest owner amount now (err e) = err e
  debited_or s guest owner amount now (ok st) =
      if st.applied
      then credited_or amount
          (apply_in_transaction s st.context owner amount guest_claim (guest_key owner guest) now)
      else ok (record { amount = pos 0; context = st.context })

  unfoldable pub stage_guest_claim :
      ShardStore → ShardTransactionContext → Text → Text → ℤ → ℕ → Result Moved
  stage_guest_claim s c guest owner amount now =
      debited_or s guest owner amount now
        (apply_in_transaction s c guest (neg amount) guest_claim (guest_key guest owner) now)

  abbrev pub settle : {A : Type 0} → A → Result (Unit {0}) → Result A
  settle a (ok _) = ok a
  settle a (err e) = err e

  abbrev pub commit_moved : ShardStore → Result Moved → Result ℤ × ShardStore
  commit_moved s (err e) = (err e, s)
  commit_moved s (ok m) = let (r, _, s') = commit m.context.transaction s in (settle m.amount r, s')

  unfoldable pub claim_guest_wallet : Text → Text → ℕ → ShardStore → Result ℤ × ShardStore
  claim_guest_wallet guest owner now s =
      if guest == owner
      then (ok (pos 0), s)
      else if leb_ℤ (wallet s now guest).balance (pos 0)
      then (ok (pos 0), s)
      else commit_moved s (stage_guest_claim s context guest owner (wallet s now guest).balance now)
