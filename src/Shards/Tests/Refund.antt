-- ===== src/Shards/Tests/Refund.antt =====
-- Refunds, reversals and attendance at concrete stores.
use ggumirror_be.Base.{ℕ, ◌≡◌, refl, true, some, [], ◌∷◌, arith}
use ggumirror_be.Base.Int.{pos, ◌+ℤ◌, ◌-ℤ◌, min_ℤ}
use ggumirror_be.Base.Text.{Text, codes, text_eqb, text_eq, pair_eq, pair_eqb}
use ggumirror_be.Base.Dict.{get, insert}
use ggumirror_be.Base.Exec.{ok}
use ggumirror_be.Canonical.{canonical, part, rest_parts, length, decimal, digits}
use ggumirror_be.Shards.Models.{
  Document, DocumentKey, RefundPlan, text, reason_value, empty_wallet, int_or_zero,
}
use ggumirror_be.Shards.Keys.{idempotency_hash}
use ggumirror_be.Shards.Store.{
  ShardStore, wallet, apply, apply_new, write_change, changed_entry, changed_wallet, new_entry,
  moved_wallet, already_applied, quota_full, claim_conflict,
}
use ggumirror_be.Shards.Refund.{
  RefundRequest, ReversalRequest, document_at, refund_purchase, refund_document, recovery_id,
  reverse_refund, reversed_document,
}
use ggumirror_be.Shards.Attendance.{status, claim}
use ggumirror_be.Shards.Ledger.{IsSound, balance_of}
use ggumirror_be.Shards.Refund.{merge}
use ggumirror_be.Shards.Service.{has_event}
use ggumirror_be.Shards.Store.{event_applied}
use ggumirror_be.Shards.Attendance.{attendance_date}
use ggumirror_be.Shards.RefundLaws.{refund_first}
use ggumirror_be.Shards.Reversal.{reverse_refund_restores}
use ggumirror_be.Shards.AttendanceLaws.{answer, attendance_first}
use ggumirror_be.Shards.Tests.{plain, alice, granted, granted-IsSound}

abbrev purchase_key : DocumentKey
purchase_key = record { collection = codes "iapTransactions"; key = codes "t1" }

abbrev refund_key : DocumentKey
refund_key = record { collection = codes "iapRefunds"; key = codes "r1" }

abbrev plan : RefundPlan
plan = record { requested = pos 130; fields = [] }

abbrev refund : RefundRequest
refund = record {
  user_id = alice;
  purchase = purchase_key;
  target = refund_key;
  document = [];
  key = codes "r1";
  plan = λ claim. ok plan;
}

-- A purchase is recorded, and 30 of its shards are spent: 100 are left of 130.
abbrev after_iap : ShardStore
after_iap = record granted {
  claims = ((codes "iapTransactions", codes "t1"), (codes "userId", text alice) ∷ []) ∷ [];
}

after_iap-IsSound : IsSound after_iap
unfolding balance_of wallet
after_iap-IsSound = record {
  wallets_ok = granted-IsSound.wallets_ok;
  ledger = granted-IsSound.ledger;
}

refund_first_example :
    let recovered = min_ℤ (balance_of after_iap alice) (pos 130) in
    let (out, s') = refund_purchase refund 12 after_iap in
    (balance_of s' alice ≡ balance_of after_iap alice -ℤ recovered)
    × (s'.quotas ≡ after_iap.quotas)
    × (document_at s' refund_key
        ≡ some (refund_document [] plan alice recovered (recovery_id (codes "r1") recovered) 12))
unfolding apply apply_new claim_conflict already_applied quota_full get wallet empty_wallet ◌+ℤ◌
    write_change changed_wallet changed_entry moved_wallet new_entry insert balance_of text_eqb
    pair_eqb
refund_first_example =
    refund_first refund 12 after_iap ((codes "userId", text alice) ∷ []) plan refl refl refl
      (omega arith) (omega arith)

abbrev recorded : Document
recorded = refund_document [] plan alice (pos 100) (some (codes "r1")) 12

abbrev refunded : ShardStore
refunded = record after_iap {
  claims =
      ((codes "iapTransactions", codes "t1"), (codes "userId", text alice) ∷ [])
      ∷ ((codes "iapRefunds", codes "r1"), recorded)
      ∷ [];
}

refunded-IsSound : IsSound refunded
unfolding balance_of wallet
refunded-IsSound = record {
  wallets_ok = granted-IsSound.wallets_ok;
  ledger = granted-IsSound.ledger;
}

abbrev reversal : ReversalRequest
reversal = record {
  user_id = alice;
  purchase = purchase_key;
  target = refund_key;
  key = codes "v1";
  remaining = λ doc. ok (int_or_zero (get (codes "recoveredAmount") doc));
}

reverse_refund_restores_example :
    let (out, s') = reverse_refund reversal 14 refunded in
    (balance_of s' alice ≡ balance_of refunded alice +ℤ pos 100)
    × (document_at s' refund_key ≡ some (reversed_document recorded (pos 100) (codes "v1") 14))
    × (s'.quotas ≡ refunded.quotas)
unfolding get text_eqb pair_eqb refund_document insert merge
reverse_refund_restores_example =
    reverse_refund_restores reversal 14 refunded recorded (pos 100) refl refl (omega arith)

abbrev date_text : ℕ → Text
date_text day = codes "day"

attendance_first_example :
    let (r, s') = claim plain date_text alice (codes "e3") 100_000 granted in
    (r ≡ ok (answer date_text 100_000 true 1 (balance_of granted alice +ℤ pos 1)))
    × (balance_of s' alice ≡ balance_of granted alice +ℤ pos 1)
    × ((status plain date_text s' alice 100_000).1 ≡ true)
unfolding status has_event event_applied attendance_date apply apply_new claim_conflict
    already_applied quota_full get wallet empty_wallet ◌+ℤ◌ write_change changed_wallet
    changed_entry moved_wallet new_entry insert idempotency_hash canonical part rest_parts length
    decimal digits reason_value text_eqb
attendance_first_example =
    attendance_first plain date_text alice (codes "e3") 100_000 granted granted-IsSound
      (λ e. ground arith) refl

abbrev present : ShardStore
present = (claim plain date_text alice (codes "e3") 100_000 granted).1

present-attended : (status plain date_text present alice 100_000).1 ≡ true
unfolding status has_event event_applied attendance_date apply apply_new claim_conflict
    already_applied quota_full get wallet empty_wallet ◌+ℤ◌ write_change changed_wallet
    changed_entry moved_wallet new_entry insert idempotency_hash canonical part rest_parts length
    decimal digits reason_value text_eqb
present-attended =
    (attendance_first plain date_text alice (codes "e3") 100_000 granted granted-IsSound
      (λ e. ground arith) refl).2
