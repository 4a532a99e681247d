-- ===== src/Shards/Transfer.antt =====
-- Two ledger lines in one caller's transaction (app/shards/store.py, `apply_in_transaction`), from one
-- wallet to another.
use ggumirror_be.Base.{ℕ, ◌≡◌, refl, ◌≢◌, none, arith, if◌then◌else◌}
use ggumirror_be.Base.Int.{ℤ, pos, ◌+ℤ◌, ◌≤ℤ◌, int_laws, neg}
use ggumirror_be.Base.Text.{Text, text_eq, text_eqb_iff, ◌==◌}
use ggumirror_be.Base.Dict.{get, get-insert}
use ggumirror_be.Base.Exec.{ok}
use ggumirror_be.Shards.Models.{ShardReason}
use ggumirror_be.Shards.Store.{ShardStore, wallet, moved_wallet}
use ggumirror_be.Shards.Scoped.{
  ShardTransactionContext, context, member, after_write, scoped_entry, scoped_wallet,
  apply_in_transaction,
}
use ggumirror_be.Shards.Ledger.{
  IsSound, balance_of, balance_of-insert, wallet-balance, wallet-WalletOk, Posted-IsSound,
}
use ggumirror_be.Shards.ScopedLaws.{scoped-Posted, staged, apply_in_transaction_stages}

-- What is handed over, between whom, and under which keys.
pub record Transfer : Type 0 where
  pub payer : Text
  pub payee : Text
  pub amount : ℤ
  pub debit_reason : ShardReason
  pub credit_reason : ShardReason
  pub debit_key : Text
  pub credit_key : Text

module _ (x : Transfer) (now : ℕ) (s : ShardStore) where
  -- The store after the payer's line, and after the payee's.
  abbrev pub after_debit : ShardStore
  after_debit =
      after_write x.payer (scoped_wallet s x.payer (neg x.amount) now)
        (scoped_entry s x.payer (neg x.amount) x.debit_reason x.debit_key now) x.debit_key s

  abbrev pub after_transfer : ShardStore
  after_transfer =
      after_write x.payee (scoped_wallet s x.payee x.amount now)
        (scoped_entry s x.payee x.amount x.credit_reason x.credit_key now) x.credit_key after_debit

  abbrev pub debit_staged : ShardTransactionContext
  debit_staged = (staged s context x.payer (neg x.amount) x.debit_reason x.debit_key now).context

  -- The payer is another than the payee and has enough, and both keys are free.
  pub record CanTransfer : Type 0 where
    pub sound : IsSound s
    pub other : x.payer ≢ x.payee
    pub debit_free : get x.debit_key s.applied ≡ none
    pub credit_free : get x.credit_key s.applied ≡ none
    pub nonneg : pos 0 ≤ℤ x.amount
    pub enough : x.amount ≤ℤ balance_of s x.payer

  module _ (h : CanTransfer) where
    debit_fits : pos 0 ≤ℤ (wallet s now x.payer).balance +ℤ neg x.amount
    debit_fits = rw (wallet-balance s now x.payer) (omega (int_laws, h.enough))

    pub debit_stages :
        apply_in_transaction s context x.payer (neg x.amount) x.debit_reason x.debit_key now
        ≡ ok (staged s context x.payer (neg x.amount) x.debit_reason x.debit_key now)
    unfolding member
    debit_stages =
        apply_in_transaction_stages s context x.payer (neg x.amount) x.debit_reason x.debit_key now
          h.debit_free refl debit_fits

    credit_fits : pos 0 ≤ℤ (wallet s now x.payee).balance +ℤ x.amount
    credit_fits = omega (int_laws, h.nonneg, (wallet-WalletOk s now x.payee h.sound).nonneg)

    pub credit_stages :
        apply_in_transaction s debit_staged x.payee x.amount x.credit_reason x.credit_key now
        ≡ ok (staged s debit_staged x.payee x.amount x.credit_reason x.credit_key now)
    unfolding member
    credit_stages =
        apply_in_transaction_stages s _ x.payee x.amount x.credit_reason x.credit_key now
          h.credit_free (ground (arith, text_eqb_iff x.payee x.payer, h.other)) credit_fits

    payee_same : wallet s now x.payee ≡ wallet after_debit now x.payee
    unfolding wallet after_write
    payee_same = ground (
      arith,
      get-insert x.payee x.payer (scoped_wallet s x.payer (neg x.amount) now) s.wallets,
      text_eqb_iff x.payee x.payer,
      h.other,
    )

    -- The books still balance.
    pub transfer-IsSound : IsSound after_transfer
    transfer-IsSound =
        Posted-IsSound after_debit after_transfer x.payee _ _
          (scoped-Posted x.payee x.amount x.credit_reason x.credit_key now s after_debit h.sound
            payee_same credit_fits)
          (Posted-IsSound s after_debit x.payer _ _
            (scoped-Posted x.payer (neg x.amount) x.debit_reason x.debit_key now s s h.sound refl
              debit_fits)
            h.sound)

    balances :
        (v : Text)
        → balance_of after_transfer v ≡ (
            if v == x.payee
            then (wallet s now x.payee).balance +ℤ x.amount
            else if v == x.payer
            then (wallet s now x.payer).balance +ℤ neg x.amount
            else balance_of s v)
    unfolding after_write scoped_wallet moved_wallet
    balances v = ground (
      arith,
      balance_of-insert after_debit after_transfer x.payee v (scoped_wallet s x.payee x.amount now)
          refl,
      balance_of-insert s after_debit x.payer v (scoped_wallet s x.payer (neg x.amount) now) refl,
    )

    -- What the payer loses is what the payee gains, and nobody else is touched.
    pub transfer-balances :
        (balance_of after_transfer x.payer ≡ balance_of s x.payer +ℤ neg x.amount)
        × (balance_of after_transfer x.payee ≡ balance_of s x.payee +ℤ x.amount)
        × ((v : Text) → v ≢ x.payer → v ≢ x.payee → balance_of after_transfer v ≡ balance_of s v)
    transfer-balances = (
      ground (
        arith,
        balances x.payer,
        text_eqb_iff x.payer x.payee,
        text_eqb_iff x.payer x.payer,
        h.other,
        wallet-balance s now x.payer,
      ),
      ground (arith, balances x.payee, text_eqb_iff x.payee x.payee, wallet-balance s now x.payee),
      λ v no_payer no_payee.
          ground (arith, balances v, text_eqb_iff v x.payer, text_eqb_iff v x.payee),
    )
