-- ===== src/Shards/Scoped.antt =====
-- app/shards/store.py and models.py: changes of the ledger that wait in a transaction which the
-- caller opened, with the record of one attempt that refuses a second change of one wallet.
use ggumirror_be.Base.{
  ℕ, Bool, true, false, Option, none, some, ◌||◌, List, [], ◌∷◌, ◌++◌, if◌then◌else◌,
}
use mathlib.Core.Logic.{ite}
use native.Mathlib.Decide.{ℕ_discrete}
use ggumirror_be.Base.Int.{ℤ, pos, ◌+ℤ◌, ltb_ℤ}
use ggumirror_be.Base.Text.{Text, text_eq, ◌==◌}
use ggumirror_be.Base.Dict.{Dict, get, insert, erase}
use ggumirror_be.Base.Exec.{Result, ok, err, wallet_already_changed, insufficient_shards}
use ggumirror_be.Shards.Models.{ShardReason, ShardWallet, ShardLedgerEntry}
use ggumirror_be.Shards.Store.{ShardStore, wallet, new_entry, moved_wallet}
use ggumirror_be.Transaction.{Write, done, InMemoryTransaction, new_transaction, add}

pub entry_discrete : Discrete ShardLedgerEntry
entry_discrete = hlevel ℕ_discrete

-- `entries.remove(entry)`
unfoldable pub remove_entry : ShardLedgerEntry → List ShardLedgerEntry → List ShardLedgerEntry
remove_entry e [] = []
remove_entry e (x ∷ xs) = ite (entry_discrete x e) xs (x ∷ remove_entry e xs)

-- `ShardTransactionContext`, with the transaction that it holds.
pub record ShardTransactionContext : Type 0 where
  pub transaction : InMemoryTransaction ShardStore
  pub changed_wallets : List Text

abbrev pub context : ShardTransactionContext
context = record { transaction = new_transaction; changed_wallets = [] }

unfoldable pub member : Text → List Text → Bool
member u [] = false
member u (x ∷ xs) = u == x || member u xs

-- `claim`: a wallet is changed once in an attempt.
unfoldable pub claim_wallet : Text → ShardTransactionContext → Result ShardTransactionContext
claim_wallet u c =
    if member u c.changed_wallets
    then err wallet_already_changed
    else ok (record c { changed_wallets = u ∷ c.changed_wallets })

abbrev pub restore_wallet :
    Text → Option ShardWallet → Dict Text ShardWallet → Dict Text ShardWallet
restore_wallet u none d = erase u d
restore_wallet u (some w) d = insert u w d

-- The write that waits for the commit, and its undo, which knows the state before it.
unfoldable pub after_write : Text → ShardWallet → ShardLedgerEntry → Text → ShardStore → ShardStore
after_write u w entry key s = record s {
  wallets = insert u w s.wallets;
  entries = s.entries ++ entry ∷ [];
  applied = insert key entry s.applied;
}

unfoldable pub undone_write : Text → ShardLedgerEntry → Text → ShardStore → ShardStore → ShardStore
unfolding remove_entry
undone_write u entry key before s = record s {
  wallets = restore_wallet u (get u before.wallets) s.wallets;
  entries = remove_entry entry s.entries;
  applied = erase key s.applied;
}

unfoldable pub staged_write : Text → ShardWallet → ShardLedgerEntry → Text → Write ShardStore
unfolding after_write undone_write
staged_write u w entry key s = done (after_write u w entry key s) (undone_write u entry key s)

pub record Staged : Type 0 where
  pub wallet : ShardWallet
  pub entry : ShardLedgerEntry
  pub applied : Bool
  pub context : ShardTransactionContext

unfoldable pub scoped_entry : ShardStore → Text → ℤ → ShardReason → Text → ℕ → ShardLedgerEntry
scoped_entry s u delta reason key now =
    new_entry key u delta ((wallet s now u).balance +ℤ delta) reason (some key) now

unfoldable pub scoped_wallet : ShardStore → Text → ℤ → ℕ → ShardWallet
scoped_wallet s u delta now = moved_wallet (wallet s now u) u delta now

abbrev pub stage_claimed :
    ShardStore → Text → ℤ → ShardReason → Text → ℕ → Result ShardTransactionContext → Result Staged
stage_claimed s u delta reason key now (err e) = err e
stage_claimed s u delta reason key now (ok c) =
    if ltb_ℤ ((wallet s now u).balance +ℤ delta) (pos 0)
    then err insufficient_shards
    else ok (record {
      wallet = scoped_wallet s u delta now;
      entry = scoped_entry s u delta reason key now;
      applied = true;
      context = record c {
        transaction =
            add
              (staged_write u (scoped_wallet s u delta now) (scoped_entry s u delta reason key now)
                key)
              c.transaction;
      };
    })

abbrev pub stage_unless :
    ShardStore
    → ShardTransactionContext
    → Text
    → ℤ
    → ShardReason
    → Text
    → ℕ
    → Option ShardLedgerEntry
    → Result Staged
stage_unless s c u delta reason key now (some existing) =
    ok (record { wallet = wallet s now u; entry = existing; applied = false; context = c })
stage_unless s c u delta reason key now none =
    stage_claimed s u delta reason key now (claim_wallet u c)

-- `apply_in_transaction`: reads only what is committed, and commits nothing.
unfoldable pub apply_in_transaction :
    ShardStore → ShardTransactionContext → Text → ℤ → ShardReason → Text → ℕ → Result Staged
apply_in_transaction s c u delta reason key now =
    stage_unless s c u delta reason key now (get key s.applied)
