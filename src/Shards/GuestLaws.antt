-- ===== src/Shards/GuestLaws.antt =====
-- The hand-over of a guest's wallet (app/shards/store.py, `claim_guest_wallet`).
use ggumirror_be.Base.{ℕ, ◌≡◌, refl, ◌≢◌, inl, inr, false, none, some, arith, Bool-cases, ap, ◌∙◌}
use ggumirror_be.Base.Int.{ℤ, pos, ◌+ℤ◌, ◌≤ℤ◌, int_laws, neg, leb_ℤ}
use ggumirror_be.Base.Text.{Text, text_eq, text_eqb_iff, ◌==◌}
use ggumirror_be.Base.Dict.{get}
use ggumirror_be.Base.Exec.{ok}
use ggumirror_be.Shards.Models.{ShardLedgerEntry, ShardReason, guest_claim}
use ggumirror_be.Shards.Store.{ShardStore, wallet}
use ggumirror_be.Shards.Scoped.{
  ShardTransactionContext, context, staged_write, apply_in_transaction,
}
use ggumirror_be.Shards.Guest.{guest_key, stage_guest_claim, claim_guest_wallet}
use ggumirror_be.Shards.Ledger.{IsSound, balance_of, wallet-balance}
use ggumirror_be.Shards.Transfer.{
  Transfer, CanTransfer, after_transfer, debit_stages, credit_stages, transfer-IsSound,
  transfer-balances,
}
use ggumirror_be.Transaction.{commit, run_writes, add}

module _ (sha256 : Text → Text) (guest owner : Text) (now : ℕ) (s : ShardStore) where
  -- The whole balance, from the guest to the account.
  abbrev pub hand_over : Transfer
  hand_over = record {
    payer = guest;
    payee = owner;
    amount = (wallet s now guest).balance;
    debit_reason = guest_claim;
    credit_reason = guest_claim;
    debit_key = guest_key sha256 guest owner;
    credit_key = guest_key sha256 owner guest;
  }

  -- The conditions under which there is something to hand over for the first time.
  pub record CanClaim : Type 0 where
    pub sound : IsSound s
    pub other : guest ≢ owner
    pub guest_free : get (guest_key sha256 guest owner) s.applied ≡ none
    pub owner_free : get (guest_key sha256 owner guest) s.applied ≡ none
    pub something : pos 1 ≤ℤ balance_of s guest

  module _ (h : CanClaim) where
    out_pos : pos 1 ≤ℤ (wallet s now guest).balance
    out_pos = rw (wallet-balance s now guest) h.something

    can_transfer : CanTransfer hand_over now s
    can_transfer = record {
      sound = h.sound;
      other = h.other;
      debit_free = h.guest_free;
      credit_free = h.owner_free;
      nonneg = omega (arith, out_pos);
      enough = rw (wallet-balance s now guest) (omega arith);
    }

    claim_moves :
        claim_guest_wallet sha256 guest owner now s
        ≡ (ok (wallet s now guest).balance, after_transfer hand_over now s)
    unfolding claim_guest_wallet stage_guest_claim commit run_writes add staged_write
    claim_moves =
        let differs : (guest == owner) ≡ false =
          ground (arith, text_eqb_iff guest owner, h.other) in
        let enough : leb_ℤ (wallet s now guest).balance (pos 0) ≡ false = ground (arith, out_pos) in
        rw
          (
            differs,
            enough,
            debit_stages hand_over now s can_transfer,
            credit_stages hand_over now s can_transfer,
          )
          refl

-- Where the books balance, the keys are free and the guest has something, the guest's whole balance
-- goes to the account in one commit: the guest is left with nothing, the account has that much
-- more, nobody else changes, and the books still balance.
pub claim_guest_wallet_moves :
    (sha256 : Text → Text) (guest owner : Text) (now : ℕ) (s : ShardStore)
    → CanClaim sha256 guest owner now s
    → let (r, s') = claim_guest_wallet sha256 guest owner now s in
      (r ≡ ok (balance_of s guest))
      × (balance_of s' guest ≡ pos 0)
      × (balance_of s' owner ≡ balance_of s owner +ℤ balance_of s guest)
      × ((v : Text) → v ≢ guest → v ≢ owner → balance_of s' v ≡ balance_of s v)
      × IsSound s'
claim_guest_wallet_moves sha256 guest owner now s h =
    let t = can_transfer sha256 guest owner now s h in
    let x = hand_over sha256 guest owner now s in
    let (emptied, filled, others) = transfer-balances x now s t in
    let read = wallet-balance s now guest in
    rw (claim_moves sha256 guest owner now s h) (
      ap ok read,
      emptied ∙ ap (λ (b : ℤ). balance_of s guest +ℤ neg b) read ∙ omega int_laws,
      filled ∙ ap (λ (b : ℤ). balance_of s owner +ℤ b) read,
      others,
      transfer-IsSound x now s t,
    )

replayed :
    (s : ShardStore) (c : ShardTransactionContext) (u : Text) (delta : ℤ) (reason : ShardReason)
    (key : Text) (now : ℕ) (e : ShardLedgerEntry)
    → get key s.applied ≡ some e
    → apply_in_transaction s c u delta reason key now
      ≡ ok (record { wallet = wallet s now u; entry = e; applied = false; context = c })
unfolding apply_in_transaction
replayed s c u delta reason key now e found = rw found

-- Once the hand-over of a guest to an account is in the ledger, the same hand-over moves nothing
-- and changes nothing, also where the guest has earned shards since.
pub claim_guest_wallet_once :
    (sha256 : Text → Text) (guest owner : Text) (now : ℕ) (s : ShardStore) (e : ShardLedgerEntry)
    → get (guest_key sha256 guest owner) s.applied ≡ some e
    → claim_guest_wallet sha256 guest owner now s ≡ (ok (pos 0), s)
unfolding claim_guest_wallet stage_guest_claim commit run_writes
claim_guest_wallet_once sha256 guest owner now s e found =
    let again =
      replayed s context guest (neg (wallet s now guest).balance) guest_claim
        (guest_key sha256 guest owner) now e found in
    elim (Bool-cases (guest == owner)) [
      | inl same ↦ rw same
      | inr other ↦ elim (Bool-cases (leb_ℤ (wallet s now guest).balance (pos 0))) [
        | inl nothing ↦ rw (other, nothing)
        | inr something ↦ rw (other, something, again)
      ]
    ]
