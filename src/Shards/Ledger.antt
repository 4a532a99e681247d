-- ===== src/Shards/Ledger.antt =====
-- The books of the ledger (app/shards/store.py): the invariant of the store, and one more ledger line
-- with its wallet.
use ggumirror_be.Base.{
  ℕ, ◌≡◌, refl, some, List, [], ◌∷◌, ◌++◌, arith, inl, inr, ap, ◌∙◌, if◌then◌else◌, Bool-cases,
  Option-cases,
}
use ggumirror_be.Base.Int.{ℤ, pos, ◌+ℤ◌, ◌≤ℤ◌, int_laws, +ℤ_assoc, +ℤ_zero}
use ggumirror_be.Base.Text.{Text, text_eq, text_eqb_iff, ◌==◌}
use ggumirror_be.Base.Dict.{get, insert, get-insert}
use ggumirror_be.Shards.Models.{ShardWallet, empty_wallet, ShardLedgerEntry}
use ggumirror_be.Shards.Store.{ShardStore, wallet}

-- A wallet under its owner's name: nothing is negative, and its totals explain the balance.
pub record WalletOk (u : Text) (w : ShardWallet) : Type 0 where
  pub owner : w.user_id ≡ u
  pub nonneg : pos 0 ≤ℤ w.balance
  pub earned : pos 0 ≤ℤ w.lifetime_earned
  pub spent : pos 0 ≤ℤ w.lifetime_spent
  pub refunded : pos 0 ≤ℤ w.lifetime_refunded
  pub returned : pos 0 ≤ℤ w.lifetime_refund_reversed
  pub explained :
      w.balance +ℤ w.lifetime_spent +ℤ w.lifetime_refunded
      ≡ w.lifetime_earned +ℤ w.lifetime_refund_reversed

-- The sum of what the ledger says of one user.
unfoldable pub ledger_sum : Text → List ShardLedgerEntry → ℤ
ledger_sum u [] = pos 0
ledger_sum u (e ∷ es) = (if u == e.user_id then e.delta else pos 0) +ℤ ledger_sum u es

-- `shards.wallet(u).balance`, which does not depend on the clock.
unfoldable pub balance_of : ShardStore → Text → ℤ
balance_of s u = (wallet s 0 u).balance

pub record IsSound (s : ShardStore) : Type 0 where
  pub wallets_ok : (u : Text) (w : ShardWallet) → get u s.wallets ≡ some w → WalletOk u w
  pub ledger : (u : Text) → balance_of s u ≡ ledger_sum u s.entries

pub wallet-balance :
    (s : ShardStore) (now : ℕ) (u : Text) → (wallet s now u).balance ≡ balance_of s u
unfolding balance_of wallet empty_wallet
wallet-balance s now u = ground arith

pub empty_wallet-WalletOk : (u : Text) (now : ℕ) → WalletOk u (empty_wallet u now)
unfolding empty_wallet
empty_wallet-WalletOk u now = record {
  owner = refl;
  nonneg = omega arith;
  earned = omega arith;
  spent = omega arith;
  refunded = omega arith;
  returned = omega arith;
  explained = omega int_laws;
}

-- A missing wallet reads as an empty one, so every wallet that is read is in order.
pub wallet-WalletOk :
    (s : ShardStore) (now : ℕ) (u : Text) → IsSound s → WalletOk u (wallet s now u)
unfolding wallet
wallet-WalletOk s now u h = elim (Option-cases (get u s.wallets)) [
  | inl e ↦ rw e (empty_wallet-WalletOk u now)
  | inr (w, e) ↦ rw e (h.wallets_ok u w e)
]

pub ledger_sum-append :
    (u : Text) (es : List ShardLedgerEntry) (e : ShardLedgerEntry)
    → ledger_sum u (es ++ e ∷ []) ≡ ledger_sum u es +ℤ (if u == e.user_id then e.delta else pos 0)
unfolding ledger_sum
ledger_sum-append u [] e = omega int_laws
ledger_sum-append u (x ∷ es) e = rw (ledger_sum-append u es e, +ℤ_assoc)

pub balance_of-insert :
    (s s' : ShardStore) (u v : Text) (w : ShardWallet)
    → s'.wallets ≡ insert u w s.wallets
    → balance_of s' v ≡ (if v == u then w.balance else balance_of s v)
unfolding balance_of wallet empty_wallet
balance_of-insert s s' u v w e = ground (arith, get-insert v u w s.wallets)

-- One more ledger line of a user, with the wallet that it makes.
pub record Posted (s s' : ShardStore) (u : Text) (w : ShardWallet) (e : ShardLedgerEntry)
    : Type 0 where
  pub wallets : s'.wallets ≡ insert u w s.wallets
  pub entries : s'.entries ≡ s.entries ++ e ∷ []
  pub user : e.user_id ≡ u
  pub moved : w.balance ≡ balance_of s u +ℤ e.delta
  pub in_order : WalletOk u w

module _ (s s' : ShardStore) (u : Text) (w : ShardWallet) (e : ShardLedgerEntry)
    (p : Posted s s' u w e) (h : IsSound s) where
  posted-get : (v : Text) → get v s'.wallets ≡ (if v == u then some w else get v s.wallets)
  posted-get v = rw p.wallets (get-insert v u w s.wallets)

  posted-wallets : (v : Text) (x : ShardWallet) → get v s'.wallets ≡ some x → WalletOk v x
  posted-wallets v x q = elim (Bool-cases (v == u)) [
    | inl same ↦
        let here : w ≡ x = ground (arith, posted-get v) in
        let v≡u : v ≡ u = (text_eqb_iff v u).0 same in rw (← here, v≡u) p.in_order
    | inr other ↦ h.wallets_ok v x (ground (arith, posted-get v))
  ]

  posted-sum :
      (v : Text)
      → ledger_sum v s'.entries
        ≡ ledger_sum v s.entries +ℤ (if v == e.user_id then e.delta else pos 0)
  posted-sum v = ap (ledger_sum v) p.entries ∙ ledger_sum-append v s.entries e

  posted-ledger : (v : Text) → balance_of s' v ≡ ledger_sum v s'.entries
  posted-ledger v = ground (
    arith,
    posted-sum v,
    balance_of-insert s s' u v w p.wallets,
    +ℤ_zero (ledger_sum v s.entries),
    h.ledger v,
    p.moved,
    p.user,
    text_eqb_iff v u,
  )

  -- It keeps the books: the ledger still sums to every balance.
  pub Posted-IsSound : IsSound s'
  Posted-IsSound = record { wallets_ok = posted-wallets; ledger = posted-ledger }
