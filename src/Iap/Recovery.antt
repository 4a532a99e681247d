-- ===== src/Iap/Recovery.antt =====
-- A purchase that is paid, and then refunded in full (app/iap/service.py, app/iap/refunds.py).
use ggumirror_be.Base.{ℕ, ◌≡◌, refl, ap, subst, ◌∙◌, sym, true, false, none, some, [], ◌∷◌, arith}
use ggumirror_be.Base.Int.{ℤ, pos, ◌+ℤ◌, ◌-ℤ◌, ◌≤ℤ◌, min_ℤ, int_laws, parts_of_eq}
use ggumirror_be.Base.Text.{Text, codes, text_eq, pair_eq, text_eqb, pair_eqb, text_eqb_iff, ◌==◌}
use ggumirror_be.Base.Dict.{get, get-insert}
use ggumirror_be.Base.Exec.{Result, ok}
use ggumirror_be.Auth.Models.{User}
use ggumirror_be.Shards.Models.{iap_refund, int, RefundPlan}
use ggumirror_be.Shards.Keys.{idempotency_hash}
use ggumirror_be.Shards.Store.{ShardStore, write_change}
use ggumirror_be.Shards.Refund.{RefundRequest, document_at, refund_new, refund_purchase}
use ggumirror_be.Shards.Service.{refund_iap}
use ggumirror_be.Shards.Ledger.{IsSound, balance_of}
use ggumirror_be.Shards.Payments.{IsAmount, balance-nonneg}
use ggumirror_be.Shards.RefundLaws.{refund_first, refund_first-eq}
use ggumirror_be.Iap.Models.{
  VerifiedTransaction, VerifiedNotification, IapResult, refund_full, account_token_user_id,
  transaction_claim_id, refund_record_id,
}
use ggumirror_be.Iap.Service.{
  IapService, transactions, purchase_claim, checked_transaction, credit_iap,
}
use ggumirror_be.Iap.Refunds.{
  refunds, refund_plan, is_skipped, recover_refund, handle_refund, record_key, purchase_key,
  recovery_document, requested_amount,
}
use ggumirror_be.Iap.Credits.{
  claimed_document, claim_key, IsUnclaimed, paid_store, paid-claim, credit_first, credit_first-eq,
  shard_amount-IsAmount, checked-shard_amount,
}

-- Apple's notice that a transaction was refunded in full.
pub record IsFullRefund (t t' : VerifiedTransaction) : Type 0 where
  pub same_id : t'.transaction_id ≡ t.transaction_id
  pub same_product : t'.product_id ≡ t.product_id
  pub same_environment : t'.environment ≡ t.environment
  pub full : t'.revocation_type ≡ some refund_full

full-taken : (t t' : VerifiedTransaction) → IsFullRefund t t' → is_skipped t' ≡ false
unfolding is_skipped text_eqb
full-taken t t' h = ground (arith, h.full)

alike : (u v : Text) → v ≡ u → (u == v) ≡ true
alike u v e = (text_eqb_iff u v).1 (sym e)

-- All that was paid.
abbrev whole_plan : ℤ → RefundPlan
whole_plan amount = record {
  requested = amount;
  fields = (codes "originalAmount", int amount) ∷ [];
}

full-plan :
    (t t' : VerifiedTransaction) (u entry : Text) (amount : ℤ)
    → IsFullRefund t t'
    → IsAmount amount
    → refund_plan t' u (claimed_document u entry t amount) ≡ ok (whole_plan amount)
unfolding refund_plan requested_amount get text_eqb
full-plan t t' u entry amount h a = ground (
  arith,
  h.full,
  alike t.product_id t'.product_id h.same_product,
  alike t.environment t'.environment h.same_environment,
  alike u u refl,
)

min_ℤ-right : (x a : ℤ) → a ≤ℤ x → min_ℤ x a ≡ a
unfolding min_ℤ
min_ℤ-right x a h = ground arith

taken_back : (b a x y : ℤ) → pos 0 ≤ℤ b → x ≡ b +ℤ a → y ≡ x -ℤ min_ℤ x a → y ≡ b
taken_back b a x y h e f =
    let least : min_ℤ x a ≡ a = min_ℤ-right x a (omega (int_laws, parts_of_eq _ _ e)) in
    let rest : y ≡ x -ℤ a = f ∙ ap (λ (m : ℤ). x -ℤ m) least in
    omega (int_laws, parts_of_eq _ _ e, parts_of_eq _ _ rest)

module _ (c : IapService) (user : User) (t t' : VerifiedTransaction) (amount : ℤ) (fresh : Text)
    (now : ℕ) (s : ShardStore) where
  abbrev request : RefundRequest
  request = record {
    user_id = user.id;
    purchase = purchase_key c.sha256 c.uuid t';
    target = record_key c.sha256 c.uuid t';
    document = recovery_document c.sha256 c.uuid t';
    key = idempotency_hash c.sha256 user.id iap_refund t'.transaction_id;
    plan = refund_plan t' user.id;
  }

  abbrev paid : ShardStore
  paid = paid_store c user t amount fresh now s

  purchase_there :
      IsFullRefund t t'
      → document_at paid request.purchase ≡ some (claimed_document user.id fresh t amount)
  purchase_there h =
      ap (λ (x : Text). get (transactions, transaction_claim_id c.sha256 x) paid.claims) h.same_id
      ∙ paid-claim c user t amount fresh now s

  record_missing : document_at s request.target ≡ none → document_at paid request.target ≡ none
  unfolding write_change purchase_claim pair_eqb text_eqb
  record_missing h =
      get-insert (request.target.collection, request.target.key)
        (claim_key c user t amount fresh now s) _ s.claims
      ∙ h

  refund_handled :
      (n : VerifiedNotification) (later : ℕ)
      → n.transaction ≡ some t'
      → IsFullRefund t t'
      → IsAmount amount
      → account_token_user_id c.uuid t'.app_account_token ≡ some user.id
      → document_at s request.target ≡ none
      → handle_refund c.sha256 c.uuid n later paid ≡ (ok tt, (refund_purchase request later paid).1)
  unfolding handle_refund recover_refund refund_iap refund_new
  refund_handled n later there h a token fresh_record =
      let first =
        refund_first-eq request later paid (claimed_document user.id fresh t amount)
          (whole_plan amount) (purchase_there h) (full-plan t t' user.id fresh amount h a)
          (record_missing fresh_record) in
      rw there (rw (full-taken t t' h) (rw token (rw first refl)))

  -- A purchase that passes the checks and is new to the ledger and to the claims, on books that
  -- balance, and is then refunded in full under a token of the same user, with no refund of it
  -- before, leaves the buyer with the balance from before the purchase, at whatever times the two
  -- happen.
  pub full_refund_restores :
      (signed : Text) (n : VerifiedNotification) (later : ℕ)
      → checked_transaction c user signed ≡ ok (t, amount)
      → IsUnclaimed c user t amount fresh now s
      → n.transaction ≡ some t'
      → IsFullRefund t t'
      → account_token_user_id c.uuid t'.app_account_token ≡ some user.id
      → get (refunds, refund_record_id c.sha256 t'.transaction_id) s.claims ≡ none
      → let s' = (credit_iap c user signed fresh now s).1 in
        let (answer, after) = handle_refund c.sha256 c.uuid n later s' in
        (answer ≡ ok tt) × (balance_of after user.id ≡ balance_of s user.id)
  full_refund_restores signed n later passed u there h token fresh_record =
      let sold = checked-shard_amount c user signed t amount passed in
      let a = shard_amount-IsAmount t amount sold in
      let paid_first = credit_first c user t amount fresh now s signed passed u in
      let eq = credit_first-eq c user t amount fresh now s signed passed u in
      let more : balance_of paid user.id ≡ balance_of s user.id +ℤ amount =
        ap (λ (p : Result IapResult × ShardStore). balance_of p.1 user.id) (sym eq)
        ∙ paid_first.2 in
      let sound : IsSound paid =
        subst (λ (p : Result IapResult × ShardStore). IsSound p.1) eq paid_first.4 in
      let less =
        (refund_first request later paid (claimed_document user.id fresh t amount)
          (whole_plan amount) (purchase_there h) (full-plan t t' user.id fresh amount h a)
          (record_missing fresh_record) (balance-nonneg paid user.id sound)
          (omega (arith, a.positive))).0 in
      rw (eq, refund_handled n later there h a token fresh_record)
        (
          refl,
          taken_back (balance_of s user.id) amount _ _ (balance-nonneg s user.id u.sound) more less,
        )
