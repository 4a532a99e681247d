-- ===== src/Iap/Credits.antt =====
-- What a signed transaction pays, and to whom (app/iap/service.py).
use ggumirror_be.Base.{ℕ, ◌≡◌, ◌≢◌, refl, ap, ◌∙◌, true, false, none, some, [], ◌∷◌, arith}
use ggumirror_be.Base.Int.{ℤ, pos, ◌+ℤ◌, ◌≤ℤ◌, int_laws}
use ggumirror_be.Base.Text.{Text, codes, text_eq, pair_eq, text_eqb}
use ggumirror_be.Base.Dict.{get, insert, get-insert_self}
use ggumirror_be.Base.Exec.{ok}
use ggumirror_be.Auth.Models.{User}
use ggumirror_be.Shards.Models.{iap_purchase, Document, text, int}
use ggumirror_be.Shards.Keys.{idempotency_hash}
use ggumirror_be.Shards.Store.{
  ShardStore, claim_conflict, write_change, changed_entry, new_entry, changed_wallet, moved_wallet,
  wallet,
}
use ggumirror_be.Shards.Ledger.{IsSound, balance_of}
use ggumirror_be.Shards.Payments.{
  IsAmount, Moves, write_change-Moves, event_change, credit-apply, balance-nonneg,
}
use ggumirror_be.Iap.Models.{VerifiedTransaction, shard_amount, IapResult, transaction_claim_id}
use ggumirror_be.Iap.Service.{
  IapService, transactions, check_product, purchase_document, purchase_claim, credited,
  apply_credit, checked_transaction, credit_iap,
}

pub shard_amount-IsAmount : (t : VerifiedTransaction) (a : ℤ) → shard_amount t ≡ some a → IsAmount a
unfolding shard_amount get
shard_amount-IsAmount t a h = ground arith

pub checked-shard_amount :
    (c : IapService) (user : User) (signed : Text) (t : VerifiedTransaction) (a : ℤ)
    → checked_transaction c user signed ≡ ok (t, a)
    → shard_amount t ≡ some a
unfolding checked_transaction check_product
checked-shard_amount c user signed t a h = ground arith

-- The stored claim of a transaction that was paid.
abbrev pub claimed_document : Text → Text → VerifiedTransaction → ℤ → Document
claimed_document u entry t amount =
    (codes "productId", text t.product_id)
    ∷ (codes "amount", int amount)
    ∷ (codes "environment", text t.environment)
    ∷ (codes "schemaVersion", int (pos 1))
    ∷ (codes "userId", text u)
    ∷ (codes "ledgerEntryId", text entry)
    ∷ []

module _ (c : IapService) (user : User) (t : VerifiedTransaction) (amount : ℤ) (fresh : Text)
    (now : ℕ) (s : ShardStore) where
  abbrev pub claim_key : Text × Text
  claim_key = (transactions, transaction_claim_id c.sha256 t.transaction_id)

  abbrev pub credit_key : Text
  credit_key = idempotency_hash c.sha256 user.id iap_purchase t.transaction_id

  abbrev pub paid_store : ShardStore
  paid_store =
      write_change s
        (event_change c.sha256 user.id amount iap_purchase t.transaction_id
          (some (purchase_claim c t amount)))
        fresh now

  -- A transaction that nobody has claimed, on books that balance.
  pub record IsUnclaimed : Type 0 where
    pub sound : IsSound s
    pub named : t.transaction_id ≢ []
    pub unclaimed : get claim_key s.claims ≡ none
    pub unpaid : get credit_key s.applied ≡ none

  pub paid-claim : get claim_key paid_store.claims ≡ some (claimed_document user.id fresh t amount)
  unfolding write_change changed_entry new_entry purchase_claim purchase_document insert text_eqb
  paid-claim = get-insert_self claim_key (claimed_document user.id fresh t amount) s.claims

  unclaimed-conflict :
      IsUnclaimed → claim_conflict s user.id (some (purchase_claim c t amount)) ≡ false
  unfolding claim_conflict purchase_claim
  unclaimed-conflict h = rw (h.unclaimed) refl

  -- The answer to a credit that is made.
  abbrev pub paid_answer : IapResult
  paid_answer = record {
    credited = true;
    amount = amount;
    balance = (wallet s now user.id).balance +ℤ amount;
  }

  apply_credit-paid :
      IsUnclaimed
      → IsAmount amount
      → (apply_credit c t user amount fresh now s ≡ (ok paid_answer, paid_store))
        × Moves s paid_store user.id credit_key amount
  unfolding apply_credit changed_wallet moved_wallet
  apply_credit-paid h a =
      let claim = some (purchase_claim c t amount) in
      let fits : pos 0 ≤ℤ balance_of s user.id +ℤ amount =
        omega (int_laws, balance-nonneg s user.id h.sound, a.positive) in
      let (e, moves) =
        write_change-Moves c.sha256 user.id amount iap_purchase t.transaction_id claim fresh now s
          h.sound h.unpaid (unclaimed-conflict h) fits in
      let path =
        credit-apply c.sha256 user.id amount iap_purchase t.transaction_id claim fresh now s a
          h.named
        ∙ e in
      (ap (credited c amount) path, moves)

  -- A signed transaction that passes the checks and that nobody has claimed pays the amount of its
  -- product into the wallet of the user who brings it, and is claimed for that user.
  pub credit_first :
      (signed : Text)
      → checked_transaction c user signed ≡ ok (t, amount)
      → IsUnclaimed
      → let (answer, s') = credit_iap c user signed fresh now s in
        (answer ≡ ok paid_answer)
        × (shard_amount t ≡ some amount)
        × (balance_of s' user.id ≡ balance_of s user.id +ℤ amount)
        × (get claim_key s'.claims ≡ some (claimed_document user.id fresh t amount))
        × IsSound s'
  unfolding credit_iap
  credit_first signed passed h =
      let sold = checked-shard_amount c user signed t amount passed in
      let (e, moves) = apply_credit-paid h (shard_amount-IsAmount t amount sold) in
      rw (passed, e) (refl, sold, moves.balance, paid-claim, moves.sound)

  pub credit_first-eq :
      (signed : Text)
      → checked_transaction c user signed ≡ ok (t, amount)
      → IsUnclaimed
      → credit_iap c user signed fresh now s ≡ (ok paid_answer, paid_store)
  unfolding credit_iap
  credit_first-eq signed passed h =
      let sold = checked-shard_amount c user signed t amount passed in
      rw passed ((apply_credit-paid h (shard_amount-IsAmount t amount sold)).0)
