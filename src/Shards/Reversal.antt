-- ===== src/Shards/Reversal.antt =====
-- A refund that Apple takes back (app/shards/store.py, `reverse_refund`).
use ggumirror_be.Base.{ℕ, ◌≡◌, refl, inl, inr, false, Option, none, some, arith, Bool-cases, ap}
use ggumirror_be.Base.Int.{ℤ, pos, ◌+ℤ◌, ◌≤ℤ◌, int_laws, leb_ℤ, parts_of_eq}
use ggumirror_be.Base.Text.{Text, codes, text_eqb, text_eq, pair_eq, text_eqb_iff}
use ggumirror_be.Base.Dict.{get, get-insert, get-insert_self}
use ggumirror_be.Base.Exec.{Result, ok, err}
use ggumirror_be.Shards.Models.{ShardWallet, Document, int, int_or_zero}
use ggumirror_be.Shards.Store.{ShardStore, wallet, new_entry}
use ggumirror_be.Shards.Refund.{
  ReversalRequest, reverse_refund, reverse_new, write_reversal, reversal_entry, restored_wallet,
  reversed_document, document_at, reverse_remaining, reverse_recorded,
}
use ggumirror_be.Shards.Ledger.{
  WalletOk, IsSound, balance_of, balance_of-insert, wallet-balance, wallet-WalletOk, Posted,
  Posted-IsSound,
}

restored-WalletOk :
    (u : Text) (w : ShardWallet) (n : ℤ) (now : ℕ)
    → WalletOk u w
    → pos 0 ≤ℤ n
    → WalletOk u (restored_wallet w u n now)
unfolding restored_wallet
restored-WalletOk u w n now h p = record {
  owner = refl;
  nonneg = omega (int_laws, h.nonneg);
  earned = h.earned;
  spent = h.spent;
  refunded = h.refunded;
  returned = omega (int_laws, h.returned);
  explained = omega (int_laws, parts_of_eq _ _ h.explained);
}

write_reversal-Posted :
    (r : ReversalRequest) (doc : Document) (n : ℤ) (now : ℕ) (s : ShardStore)
    → IsSound s
    → pos 0 ≤ℤ n
    → Posted s
        (write_reversal r doc n now s)
        r.user_id
        (restored_wallet (wallet s now r.user_id) r.user_id n now)
        (reversal_entry (wallet s now r.user_id) r.user_id n r.key now)
unfolding write_reversal reversal_entry new_entry restored_wallet
write_reversal-Posted r doc n now s h p = record {
  wallets = refl;
  entries = refl;
  user = refl;
  moved = ap (λ (b : ℤ). b +ℤ n) (wallet-balance s now r.user_id);
  in_order =
      restored-WalletOk r.user_id (wallet s now r.user_id) n now (wallet-WalletOk s now r.user_id h)
        p;
}

reverse_new-IsSound :
    (r : ReversalRequest) (doc : Document) (n : ℤ) (now : ℕ) (s : ShardStore)
    → IsSound s
    → IsSound (reverse_new r doc n now s).1
unfolding reverse_new
reverse_new-IsSound r doc n now s h = elim (Bool-cases (leb_ℤ n (pos 0))) [
  | inl nothing ↦ rw nothing h
  | inr something ↦
      rw something
        (Posted-IsSound s _ r.user_id _ _ (write_reversal-Posted r doc n now s h (ground arith)) h)
]

remaining-IsSound :
    (r : ReversalRequest) (doc : Document) (now : ℕ) (s : ShardStore) (o : Result ℤ)
    → IsSound s
    → IsSound (reverse_remaining r doc now s o).1
remaining-IsSound r doc now s (ok n) h = reverse_new-IsSound r doc n now s h
remaining-IsSound r doc now s (err e) h = h

recorded-IsSound :
    (r : ReversalRequest) (now : ℕ) (s : ShardStore) (o : Option Document)
    → IsSound s
    → IsSound (reverse_recorded r now s o).1
recorded-IsSound r now s none h = h
recorded-IsSound r now s (some doc) h = remaining-IsSound r doc now s (r.remaining doc) h

-- Where the books balance, they balance after the reversal of a refund, whether it succeeds or
-- raises.
pub reverse_refund-IsSound :
    (r : ReversalRequest) (now : ℕ) (s : ShardStore)
    → IsSound s
    → IsSound (reverse_refund r now s).1
unfolding reverse_refund
reverse_refund-IsSound r now s h = recorded-IsSound r now s (document_at s r.target) h

pub reversed-document :
    (doc : Document) (n : ℤ) (key : Text) (now : ℕ)
    → get (codes "reversedAmount") (reversed_document doc n key now)
      ≡ some (int (int_or_zero (get (codes "reversedAmount") doc) +ℤ n))
unfolding reversed_document text_eqb
reversed-document doc n key now = simp get-insert

pub recovered-document :
    (doc : Document) (n : ℤ) (key : Text) (now : ℕ)
    → get (codes "recoveredAmount") (reversed_document doc n key now)
      ≡ get (codes "recoveredAmount") doc
unfolding reversed_document text_eqb
recovered-document doc n key now = simp get-insert

-- A reversal of a recorded refund with something left raises the balance by exactly what is left,
-- and adds it to the amount that the record says is reversed.
pub reverse_refund_restores :
    (r : ReversalRequest) (now : ℕ) (s : ShardStore) (doc : Document) (n : ℤ)
    → document_at s r.target ≡ some doc
    → r.remaining doc ≡ ok n
    → pos 1 ≤ℤ n
    → let (out, s') = reverse_refund r now s in
      (balance_of s' r.user_id ≡ balance_of s r.user_id +ℤ n)
      × (document_at s' r.target ≡ some (reversed_document doc n r.key now))
      × (s'.quotas ≡ s.quotas)
unfolding reverse_refund reverse_new write_reversal restored_wallet
reverse_refund_restores r now s doc n p q more =
    let nothing : leb_ℤ n (pos 0) ≡ false = ground arith in
    rw (p, q, nothing)
      (
        ground (
          arith,
          balance_of-insert s (write_reversal r doc n now s) r.user_id r.user_id
              (restored_wallet (wallet s now r.user_id) r.user_id n now) refl,
          text_eqb_iff r.user_id r.user_id,
          wallet-balance s now r.user_id,
        ),
        get-insert_self (r.target.collection, r.target.key) _ _,
        refl,
      )
