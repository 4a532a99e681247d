-- ===== src/Shards/ScopedLaws.antt =====
-- The writes that wait in a caller's transaction (app/shards/store.py, `apply_in_transaction`), with
-- their undos.
use mathlib.Core.Logic.{if_pos, if_neg}
use ggumirror_be.Base.{
  ℕ, ◌≡◌, refl, inl, inr, true, false, none, some, List, [], ◌∷◌, ◌++◌, arith, Option-cases, ap,
  ◌∙◌,
}
use ggumirror_be.Base.Int.{ℤ, pos, ◌+ℤ◌, ◌≤ℤ◌, ltb_ℤ}
use ggumirror_be.Base.Text.{Text, text_eq, text_eqb_iff}
use ggumirror_be.Base.Dict.{Dict, get, insert, erase-insert, insert-insert}
use ggumirror_be.Base.Exec.{ok}
use ggumirror_be.Shards.Models.{ShardWallet, ShardLedgerEntry, ShardReason}
use ggumirror_be.Shards.Store.{ShardStore, wallet, new_entry, moved_wallet}
use ggumirror_be.Transaction.{add}
use ggumirror_be.Shards.Scoped.{
  Staged, ShardTransactionContext, member, claim_wallet, apply_in_transaction, entry_discrete,
  remove_entry, after_write, undone_write, staged_write, restore_wallet, scoped_entry,
  scoped_wallet,
}
use ggumirror_be.Shards.Once.{key_count, IsIndexed, keyed_line-IsIndexed}
use ggumirror_be.Shards.Ledger.{IsSound, wallet-balance, wallet-WalletOk, Posted}
use ggumirror_be.Shards.ApplyLaws.{moved-WalletOk}

remove_entry-append :
    (e : ShardLedgerEntry) (key : Text) (es : List ShardLedgerEntry)
    → e.idempotency_key_hash ≡ some key
    → key_count key es ≡ 0
    → remove_entry e (es ++ e ∷ []) ≡ es
unfolding remove_entry key_count
remove_entry-append e key [] k none_yet = if_pos (entry_discrete e e) refl _ _
remove_entry-append e key (x ∷ es) k none_yet = elim (entry_discrete x e) [
  | yes same ↦
      ground
        (arith, ap (λ (y : ShardLedgerEntry). y.idempotency_key_hash) same, text_eqb_iff key key)
  | no differs ↦
      rw (if_neg (entry_discrete x e) differs)
        (ap (◌∷◌ x) (remove_entry-append e key es k (ground arith)))
]

restore_wallet-insert :
    (u : Text) (w : ShardWallet) (d : Dict Text ShardWallet)
    → restore_wallet u (get u d) (insert u w d) ≡ d
restore_wallet-insert u w d = elim (Option-cases (get u d)) [
  | inl e ↦ rw e (erase-insert u w d e)
  | inr (v, e) ↦ rw e (insert-insert u w v d e)
]

-- The undo of a staged write takes it back exactly, dictionary order and all.
undo_write :
    (u : Text) (w : ShardWallet) (entry : ShardLedgerEntry) (key : Text) (s : ShardStore)
    → IsIndexed s
    → get key s.applied ≡ none
    → entry.idempotency_key_hash ≡ some key
    → undone_write u entry key s (after_write u w entry key s) ≡ s
unfolding undone_write after_write
undo_write u w entry key s h free k = rw (
  restore_wallet-insert u w s.wallets,
  remove_entry-append entry key s.entries k (h.missing key free),
  erase-insert key entry s.applied free,
)

pub after_write-IsIndexed :
    (u : Text) (w : ShardWallet) (entry : ShardLedgerEntry) (key : Text) (s : ShardStore)
    → IsIndexed s
    → get key s.applied ≡ none
    → entry.idempotency_key_hash ≡ some key
    → IsIndexed (after_write u w entry key s)
unfolding after_write
after_write-IsIndexed u w entry key s h free k =
    keyed_line-IsIndexed s (after_write u w entry key s) entry key k free refl refl h

-- A staged change, run on a store where the user's wallet is still the one that was read, keeps
-- the books.
pub scoped-Posted :
    (u : Text) (delta : ℤ) (reason : ShardReason) (key : Text) (now : ℕ) (s t : ShardStore)
    → IsSound s
    → wallet s now u ≡ wallet t now u
    → pos 0 ≤ℤ (wallet s now u).balance +ℤ delta
    → Posted t
        (after_write u (scoped_wallet s u delta now) (scoped_entry s u delta reason key now) key t)
        u
        (scoped_wallet s u delta now)
        (scoped_entry s u delta reason key now)
unfolding after_write scoped_wallet scoped_entry new_entry moved_wallet
scoped-Posted u delta reason key now s t h same fits = record {
  wallets = refl;
  entries = refl;
  user = refl;
  moved =
      ap (λ (w : ShardWallet). w.balance +ℤ delta) same
      ∙ ap (λ (b : ℤ). b +ℤ delta) (wallet-balance t now u);
  in_order = moved-WalletOk u (wallet s now u) delta now (wallet-WalletOk s now u h) fits;
}

-- What a staged change hands back where it goes through.
abbrev pub staged :
    ShardStore → ShardTransactionContext → Text → ℤ → ShardReason → Text → ℕ → Staged
staged s c u delta reason key now = record {
  wallet = scoped_wallet s u delta now;
  entry = scoped_entry s u delta reason key now;
  applied = true;
  context = record {
    transaction =
        add
          (staged_write u (scoped_wallet s u delta now) (scoped_entry s u delta reason key now) key)
          c.transaction;
    changed_wallets = u ∷ c.changed_wallets;
  };
}

-- A change under a free key, of a wallet that this attempt has not changed, that does not
-- overdraw, is staged.
pub apply_in_transaction_stages :
    (s : ShardStore) (c : ShardTransactionContext) (u : Text) (delta : ℤ) (reason : ShardReason)
    (key : Text) (now : ℕ)
    → get key s.applied ≡ none
    → member u c.changed_wallets ≡ false
    → pos 0 ≤ℤ (wallet s now u).balance +ℤ delta
    → apply_in_transaction s c u delta reason key now ≡ ok (staged s c u delta reason key now)
unfolding apply_in_transaction claim_wallet
apply_in_transaction_stages s c u delta reason key now free unchanged fits =
    let enough : ltb_ℤ ((wallet s now u).balance +ℤ delta) (pos 0) ≡ false = ground arith in
    rw (free, unchanged, enough)
