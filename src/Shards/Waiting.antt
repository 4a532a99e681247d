-- ===== src/Shards/Waiting.antt =====
-- The books of the ledger after the writes that wait in a caller's transaction (app/shards/store.py,
-- `apply_in_transaction`).
use ggumirror_be.Base.{
  ℕ, ◌≡◌, refl, ap, sym, ◌∙◌, false, inl, inr, ◌∷◌, arith, Bool-cases, Option-cases,
}
use ggumirror_be.Base.Int.{ℤ, pos, ◌+ℤ◌, ◌≤ℤ◌, ltb_ℤ}
use ggumirror_be.Base.Text.{Text, text_eq}
use ggumirror_be.Base.Dict.{get, get-insert}
use ggumirror_be.Base.Exec.{Result, ok, err, Result-cases}
use ggumirror_be.Shards.Models.{ShardReason}
use ggumirror_be.Shards.Keys.{idempotency_hash}
use ggumirror_be.Shards.Store.{ShardStore, wallet}
use ggumirror_be.Shards.Scoped.{
  ShardTransactionContext, Staged, context, staged_write, scoped_wallet, scoped_entry, after_write,
  apply_in_transaction, claim_wallet, member,
}
use ggumirror_be.Shards.Service.{scoped_change, moved}
use ggumirror_be.Shards.Ledger.{IsSound, Posted-IsSound}
use ggumirror_be.Shards.ScopedLaws.{scoped-Posted}
use ggumirror_be.Transaction.{add}
use ggumirror_be.Transaction.Total.{AllTotal, AllTotal-append, final_state, final_state-append}

-- What waits in an attempt never raises and keeps the books, and leaves the wallets alone that the
-- attempt did not claim.
pub record Waits (s : ShardStore) (c : ShardTransactionContext) : Type 0 where
  pub total : AllTotal c.transaction.writes
  pub sound : IsSound (final_state c.transaction.writes s)
  pub same :
      (u : Text) (now : ℕ)
      → member u c.changed_wallets ≡ false
      → wallet s now u ≡ wallet (final_state c.transaction.writes s) now u

abbrev pub StagedWaits : ShardStore → Result Staged → Type 0
StagedWaits s (err e) = Unit {0}
StagedWaits s (ok st) = Waits s st.context

pub context-Waits : (s : ShardStore) → IsSound s → Waits s context
unfolding final_state
context-Waits s h = record { total = tt; sound = h; same = λ u now out. refl }

module _ (s : ShardStore) (c : ShardTransactionContext) (u : Text) (delta : ℤ)
    (reason : ShardReason) (key : Text) (now : ℕ) (sound : IsSound s) (h : Waits s c) where
  abbrev next : ShardTransactionContext
  next = record {
    transaction =
        add
          (staged_write u (scoped_wallet s u delta now) (scoped_entry s u delta reason key now) key)
          c.transaction;
    changed_wallets = u ∷ c.changed_wallets;
  }

  abbrev posted : ShardStore
  posted =
      after_write u (scoped_wallet s u delta now) (scoped_entry s u delta reason key now) key
        (final_state c.transaction.writes s)

  next-state : final_state next.transaction.writes s ≡ posted
  unfolding add staged_write
  next-state =
      final_state-append c.transaction.writes
        (staged_write u (scoped_wallet s u delta now) (scoped_entry s u delta reason key now) key) s

  posted-same :
      (v : Text) (at_time : ℕ)
      → member v (u ∷ c.changed_wallets) ≡ false
      → wallet s at_time v ≡ wallet posted at_time v
  unfolding wallet after_write member
  posted-same v at_time out =
      let before : wallet s at_time v ≡ wallet (final_state c.transaction.writes s) at_time v =
        h.same v at_time (ground arith) in
      before
      ∙ ground (
        arith,
        get-insert v u (scoped_wallet s u delta now) (final_state c.transaction.writes s).wallets,
      )

  next-Waits :
      member u c.changed_wallets ≡ false → pos 0 ≤ℤ (wallet s now u).balance +ℤ delta → Waits s next
  unfolding add staged_write
  next-Waits fresh fits = record {
    total = AllTotal-append c.transaction.writes _ h.total (λ w. (_, refl));
    sound = rw next-state (
        Posted-IsSound (final_state c.transaction.writes s) posted u _ _
          (scoped-Posted u delta reason key now s (final_state c.transaction.writes s) sound
            (h.same u now fresh) fits)
          h.sound);
    same = λ v at_time out.
        posted-same v at_time out ∙ ap (λ (t : ShardStore). wallet t at_time v) (sym next-state);
  }

  pub apply_in_transaction-Waits : StagedWaits s (apply_in_transaction s c u delta reason key now)
  unfolding apply_in_transaction claim_wallet
  apply_in_transaction-Waits = elim (Option-cases (get key s.applied)) [
    | inr (e, found) ↦ rw found h
    | inl free ↦ elim (Bool-cases (member u c.changed_wallets)) [
      | inl changed ↦ rw (free, changed) tt
      | inr fresh ↦ elim (Bool-cases (ltb_ℤ ((wallet s now u).balance +ℤ delta) (pos 0))) [
        | inl short ↦ rw (free, fresh, short) tt
        | inr fits ↦ rw (free, fresh, fits) (next-Waits fresh (ground arith))
      ]
    ]
  ]

pub scoped_change-Waits :
    (sha256 : Text → Text) (s : ShardStore) (c : ShardTransactionContext) (u : Text) (delta : ℤ)
    (reason : ShardReason) (event : Text) (now : ℕ)
    → IsSound s
    → Waits s c
    → StagedWaits s (scoped_change sha256 s c u delta reason event now)
unfolding scoped_change
scoped_change-Waits sha256 s c u delta reason event now sound h =
    elim (Result-cases (moved delta)) [
      | inl (amount, e) ↦ rw e (
          apply_in_transaction-Waits s c u amount reason (idempotency_hash sha256 u reason event)
            now sound h)
      | inr (x, e) ↦ rw e tt
    ]

-- A change that went through leaves an attempt that waits.
pub staged_waits :
    (s : ShardStore) (r : Result Staged) (st : Staged)
    → r ≡ ok st
    → StagedWaits s r
    → Waits s st.context
staged_waits s r st e h = rw e at h
