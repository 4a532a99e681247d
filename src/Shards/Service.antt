-- ===== src/Shards/Service.antt =====
-- app/shards/service.py, `ShardLedgerService`: the checked entry points, which make the keys. What
-- a user asks for never carries a key of its own.
use ggumirror_be.Base.{ℕ, zero, Bool, true, false, Option, none, some, [], ◌∷◌, ◌++◌, if◌then◌else◌}
use ggumirror_be.Base.Int.{ℤ, pos, neg, ltb_ℤ, leb_ℤ}
use ggumirror_be.Base.Text.{Text, codes}
use ggumirror_be.Base.Exec.{Result, ok, err, ◌>>=◌, ◌>>◌, raise_if, invalid_shard_amount}
use ggumirror_be.Shards.Models.{
  ShardReason, iap_refund, iap_refund_reversed, Document, DocumentKey, PeriodQuota, ExclusiveClaim,
  RefundPlan, ShardMutationResult, ShardRefundResult, ShardRefundReversalResult, max_delta,
}
use ggumirror_be.Shards.Keys.{idempotency_hash}
use ggumirror_be.Shards.Store.{ShardStore, Applied, event_applied, quota_used, apply}
use ggumirror_be.Shards.Refund.{refund_purchase, reverse_refund}
use ggumirror_be.Shards.Scoped.{ShardTransactionContext, Staged, apply_in_transaction}

-- `_checked`; the tests of the type are the types of the model.
unfoldable pub checked : ℤ → Result ℤ
checked amount = do
  raise_if (leb_ℤ amount (pos 0)) invalid_shard_amount
  raise_if (ltb_ℤ (pos max_delta) amount) invalid_shard_amount
  ok amount

abbrev abs_ℤ : ℤ → ℤ
abs_ℤ a = if ltb_ℤ a (pos 0) then neg a else a

abbrev is_zero : ℤ → Bool
is_zero (pos zero) = true
is_zero _ = false

-- `_moved`
unfoldable pub moved : ℤ → Result ℤ
moved delta = do
  raise_if (is_zero delta) invalid_shard_amount
  raise_if (ltb_ℤ (pos max_delta) (abs_ℤ delta)) invalid_shard_amount
  ok delta

abbrev pub mutation : Result Applied × ShardStore → Result ShardMutationResult × ShardStore
mutation (ok (w, e, applied), s) =
    (ok (record { wallet = w; applied = applied; entry_id = none }), s)
mutation (err e, s) = (err e, s)

module _ (sha256 : Text → Text) where
  -- `if external_event_id`: an empty id is no id.
  abbrev pub event_key : Text → ShardReason → Option Text → Option Text
  event_key u reason none = none
  event_key u reason (some []) = none
  event_key u reason (some (b ∷ bs)) = some (idempotency_hash sha256 u reason (b ∷ bs))

  unfoldable pub has_event : ShardStore → Text → ShardReason → Text → Bool
  has_event s u reason event = event_applied s (idempotency_hash sha256 u reason event)

  unfoldable pub quota_key : Text → ShardReason → Text → Text
  quota_key u reason period = idempotency_hash sha256 u reason (codes "quota:" ++ period)

  unfoldable pub period_used : ShardStore → Text → ShardReason → Text → ℕ
  period_used s u reason period = quota_used s (quota_key u reason period)

  abbrev pub period_quota : Text → ShardReason → Option Text → Option ℕ → Option PeriodQuota
  period_quota u reason (some period) (some limit) =
      some (record { key = quota_key u reason period; limit = limit })
  period_quota u reason _ _ = none

  -- `_apply`
  unfoldable pub apply_change :
      Text
      → ℤ
      → ShardReason
      → Option Text
      → Option PeriodQuota
      → Option ExclusiveClaim
      → Text
      → ℕ
      → ShardStore
      → Result ShardMutationResult × ShardStore
  apply_change u delta reason event quota claim fresh now s = mutation (
      apply
        (record {
          user_id = u;
          delta = delta;
          reason = reason;
          key = event_key u reason event;
          quota = quota;
          claim = claim;
        })
        fresh now s)

  abbrev pub credit_checked :
      Text
      → Result ℤ
      → ShardReason
      → Option Text
      → Option PeriodQuota
      → Option ExclusiveClaim
      → Text
      → ℕ
      → ShardStore
      → Result ShardMutationResult × ShardStore
  credit_checked u (err e) reason event quota claim fresh now s = (err e, s)
  credit_checked u (ok amount) reason event quota claim fresh now s =
      apply_change u amount reason event quota claim fresh now s

  unfoldable pub credit :
      Text
      → ℤ
      → ShardReason
      → Option Text
      → Option Text
      → Option ℕ
      → Option ExclusiveClaim
      → Text
      → ℕ
      → ShardStore
      → Result ShardMutationResult × ShardStore
  credit u amount reason event period limit claim fresh now s =
      credit_checked u (checked amount) reason event (period_quota u reason period limit) claim
        fresh now s

  abbrev pub debit_checked :
      Text
      → Result ℤ
      → ShardReason
      → Option Text
      → Text
      → ℕ
      → ShardStore
      → Result ShardMutationResult × ShardStore
  debit_checked u (err e) reason event fresh now s = (err e, s)
  debit_checked u (ok amount) reason event fresh now s =
      apply_change u (neg amount) reason event none none fresh now s

  unfoldable pub debit :
      Text
      → ℤ
      → ShardReason
      → Option Text
      → Text
      → ℕ
      → ShardStore
      → Result ShardMutationResult × ShardStore
  debit u amount reason event fresh now s =
      debit_checked u (checked amount) reason event fresh now s

  unfoldable pub refund_iap :
      Text
      → Text
      → DocumentKey
      → DocumentKey
      → Document
      → (Document → Result RefundPlan)
      → ℕ
      → ShardStore
      → Result ShardRefundResult × ShardStore
  refund_iap u event purchase target document plan now s =
      refund_purchase
        (record {
          user_id = u;
          purchase = purchase;
          target = target;
          document = document;
          key = idempotency_hash sha256 u iap_refund event;
          plan = plan;
        })
        now s

  unfoldable pub reverse_iap_refund :
      Text
      → Text
      → DocumentKey
      → DocumentKey
      → (Document → Result ℤ)
      → ℕ
      → ShardStore
      → Result ShardRefundReversalResult × ShardStore
  reverse_iap_refund u event purchase target remaining now s =
      reverse_refund
        (record {
          user_id = u;
          purchase = purchase;
          target = target;
          key = idempotency_hash sha256 u iap_refund_reversed event;
          remaining = remaining;
        })
        now s

  -- `apply_in_transaction` of the service, which checks the amount and makes the key.
  unfoldable pub scoped_change :
      ShardStore → ShardTransactionContext → Text → ℤ → ShardReason → Text → ℕ → Result Staged
  scoped_change s c u delta reason event now = do
    amount ← moved delta
    apply_in_transaction s c u amount reason (idempotency_hash sha256 u reason event) now
