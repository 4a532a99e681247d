-- ===== src/Iap/Claims.antt =====
-- A transaction that comes again, from the same user or from another (app/iap/service.py).
use ggumirror_be.Base.{ℕ, ◌≡◌, ◌≢◌, refl, ap, ◌∙◌, sym, true, false, not, some, [], arith}
use ggumirror_be.Base.Int.{ℤ}
use ggumirror_be.Base.Text.{Text, text_eq, pair_eq, text_eqb, text_eqb_iff, ◌==◌}
use ggumirror_be.Base.Dict.{get, get-insert_self}
use ggumirror_be.Base.Exec.{ok, err, transaction_already_claimed}
use ggumirror_be.Auth.Models.{User}
use ggumirror_be.Shards.Models.{ShardLedgerEntry, iap_purchase}
use ggumirror_be.Shards.Keys.{idempotency_hash}
use ggumirror_be.Shards.Store.{
  ShardStore, apply, already_applied, claim_conflict, write_change, changed_entry, new_entry,
  wallet,
}
use ggumirror_be.Shards.Payments.{IsAmount, event_change, credit-apply}
use ggumirror_be.Iap.Models.{VerifiedTransaction, transaction_claim_id}
use ggumirror_be.Iap.Service.{
  IapService, transactions, purchase_claim, apply_credit, checked_transaction, credit_iap,
}
use ggumirror_be.Iap.Credits.{
  claimed_document, IsUnclaimed, paid_store, paid-claim, credit_key, credit_first-eq,
  shard_amount-IsAmount, checked-shard_amount,
}

-- Whether a stored claim stands against a user.
claimed-conflict :
    (c : IapService) (t t' : VerifiedTransaction) (amount paid : ℤ) (u v entry : Text)
    (s : ShardStore)
    → get (transactions, transaction_claim_id c.sha256 t.transaction_id) s.claims
      ≡ some (claimed_document u entry t' paid)
    → claim_conflict s v (some (purchase_claim c t amount)) ≡ not (u == v)
unfolding claim_conflict purchase_claim
claimed-conflict c t t' amount paid u v entry s claim = rw claim (unfold get text_eqb in refl)

conflict-stops :
    (c : IapService) (user : User) (t : VerifiedTransaction) (amount : ℤ) (fresh : Text) (now : ℕ)
    (s : ShardStore)
    → IsAmount amount
    → t.transaction_id ≢ []
    → claim_conflict s user.id (some (purchase_claim c t amount)) ≡ true
    → apply_credit c t user amount fresh now s ≡ (err transaction_already_claimed, s)
unfolding apply_credit apply
conflict-stops c user t amount fresh now s a named conflict =
    rw
      (credit-apply c.sha256 user.id amount iap_purchase t.transaction_id
        (some (purchase_claim c t amount)) fresh now s a named)
      (rw conflict refl)

replayed_credit :
    (c : IapService) (user : User) (t : VerifiedTransaction) (amount : ℤ) (fresh : Text) (now : ℕ)
    (e : ShardLedgerEntry) (s : ShardStore)
    → IsAmount amount
    → t.transaction_id ≢ []
    → claim_conflict s user.id (some (purchase_claim c t amount)) ≡ false
    → get (idempotency_hash c.sha256 user.id iap_purchase t.transaction_id) s.applied ≡ some e
    → apply_credit c t user amount fresh now s ≡ (
      ok (record { credited = false; amount = amount; balance = (wallet s now e.user_id).balance }),
      s,
    )
unfolding apply_credit apply already_applied
replayed_credit c user t amount fresh now e s a named free there =
    rw
      (credit-apply c.sha256 user.id amount iap_purchase t.transaction_id
        (some (purchase_claim c t amount)) fresh now s a named)
      (rw free (rw there refl))

abbrev entry :
    IapService → User → VerifiedTransaction → ℤ → Text → ℕ → ShardStore → ShardLedgerEntry
entry c user t amount fresh now s =
    changed_entry s
      (event_change c.sha256 user.id amount iap_purchase t.transaction_id
        (some (purchase_claim c t amount)))
      fresh now

paid-entry :
    (c : IapService) (user : User) (t : VerifiedTransaction) (amount : ℤ) (fresh : Text) (now : ℕ)
    (s : ShardStore)
    → get (credit_key c user t amount fresh now s) (paid_store c user t amount fresh now s).applied
      ≡ some (entry c user t amount fresh now s)
unfolding write_change
paid-entry c user t amount fresh now s =
    get-insert_self (credit_key c user t amount fresh now s) (entry c user t amount fresh now s)
      s.applied

credit_iap-checked :
    (c : IapService) (user : User) (t : VerifiedTransaction) (amount : ℤ) (signed fresh : Text)
    (now : ℕ) (s : ShardStore)
    → checked_transaction c user signed ≡ ok (t, amount)
    → credit_iap c user signed fresh now s ≡ apply_credit c t user amount fresh now s
unfolding credit_iap
credit_iap-checked c user t amount signed fresh now s passed = rw passed refl

different : (u v : Text) → u ≢ v → (u == v) ≡ false
different u v h = ground (arith, text_eqb_iff u v)

alike : (u : Text) → (u == u) ≡ true
alike u = (text_eqb_iff u u).1 refl

-- A transaction that passes the checks and pays one user for the first time, on books that balance,
-- pays no other user: a later call by another user, with any signed transaction of the same id that
-- passes the checks for them, raises and changes nothing.
pub credit_exclusive :
    (c : IapService) (user thief : User) (t t' : VerifiedTransaction) (amount other : ℤ)
    (signed stolen fresh fresh' : Text) (now later : ℕ) (s : ShardStore)
    → checked_transaction c user signed ≡ ok (t, amount)
    → IsUnclaimed c user t amount fresh now s
    → checked_transaction c thief stolen ≡ ok (t', other)
    → t'.transaction_id ≡ t.transaction_id
    → user.id ≢ thief.id
    → let s' = (credit_iap c user signed fresh now s).1 in
      credit_iap c thief stolen fresh' later s' ≡ (err transaction_already_claimed, s')
credit_exclusive c user thief t t' amount other signed stolen fresh fresh' now later s passed h
      passed' same apart =
    let s1 = paid_store c user t amount fresh now s in
    let a = shard_amount-IsAmount t' other (checked-shard_amount c thief stolen t' other passed') in
    let claim =
      ap (λ (x : Text). get (transactions, transaction_claim_id c.sha256 x) s1.claims) same
      ∙ paid-claim c user t amount fresh now s in
    let conflict =
      claimed-conflict c t' t other amount user.id thief.id fresh s1 claim
      ∙ ap not (different user.id thief.id apart) in
    rw (credit_first-eq c user t amount fresh now s signed passed h) (
      credit_iap-checked c thief t' other stolen fresh' later s1 passed'
      ∙ conflict-stops c thief t' other fresh' later s1 a (λ e. h.named (sym same ∙ e)) conflict)

-- The same user's second call with the same transaction succeeds, pays nothing and changes nothing.
pub credit_again :
    (c : IapService) (user : User) (t : VerifiedTransaction) (amount : ℤ)
    (signed fresh fresh' : Text) (now later : ℕ) (s : ShardStore)
    → checked_transaction c user signed ≡ ok (t, amount)
    → IsUnclaimed c user t amount fresh now s
    → let s' = (credit_iap c user signed fresh now s).1 in
      credit_iap c user signed fresh' later s' ≡ (
        ok (record {
          credited = false;
          amount = amount;
          balance = (wallet s' later user.id).balance;
        }),
        s',
      )
credit_again c user t amount signed fresh fresh' now later s passed h =
    let s1 = paid_store c user t amount fresh now s in
    let a = shard_amount-IsAmount t amount (checked-shard_amount c user signed t amount passed) in
    let free =
      claimed-conflict c t t amount amount user.id user.id fresh s1
        (paid-claim c user t amount fresh now s)
      ∙ ap not (alike user.id) in
    rw (credit_first-eq c user t amount fresh now s signed passed h) (
      credit_iap-checked c user t amount signed fresh' later s1 passed
      ∙ replayed_credit c user t amount fresh' later (entry c user t amount fresh now s) s1 a
          h.named free (paid-entry c user t amount fresh now s)
      ∙ unfold changed_entry new_entry in refl)
