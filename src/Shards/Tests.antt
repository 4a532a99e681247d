-- ===== src/Shards/Tests.antt =====
-- The theorems on the ledger at concrete stores: a hash that tells everything apart, two users, and
-- a first grant.
mod Refund
use ggumirror_be.Base.{ℕ, ◌≡◌, refl, ◌≢◌, ◌≤◌, sym, true, false, some, none, [], ◌∷◌, arith}
use mathlib.Core.Bool.{true≢false}
use ggumirror_be.Base.Int.{ℤ, pos, neg, ◌+ℤ◌, ◌-ℤ◌, min_ℤ}
use ggumirror_be.Base.Text.{Text, codes, text_eqb, text_eqb_iff, text_eq, pair_eq, pair_eqb}
use ggumirror_be.Base.Dict.{get, insert}
use ggumirror_be.Base.Exec.{ok, insufficient_shards}
use ggumirror_be.Canonical.{canonical, part, rest_parts, length, decimal, digits}
use ggumirror_be.Shards.Models.{
  Document, DocumentKey, RefundPlan, text, rewarded_ad, iap_purchase, guest_claim, reason_value,
  empty_wallet, int_or_zero,
}
use ggumirror_be.Shards.Keys.{IsCollisionFree, idempotency_hash}
use ggumirror_be.Shards.Store.{
  ShardStore, empty_store, Change, wallet, apply, apply_new, write_change, changed_entry,
  changed_wallet, new_entry, moved_wallet, quota_used, already_applied, quota_full, claim_conflict,
}
use ggumirror_be.Shards.Refund.{
  RefundRequest, ReversalRequest, document_at, refund_purchase, refund_document, recovery_id,
  reverse_refund, reversed_document,
}
use ggumirror_be.Shards.Guest.{guest_key, claim_guest_wallet}
use ggumirror_be.Shards.Attendance.{kst_day, status, claim}
use ggumirror_be.Shards.Ledger.{IsSound, balance_of, ledger_sum}
use ggumirror_be.Shards.ApplyLaws.{
  apply-IsSound, apply_once, apply_others, apply-quota-le, apply_atomic,
}
use ggumirror_be.Shards.Once.{IsIndexed, key_count, apply-IsIndexed}
use ggumirror_be.Shards.GuestLaws.{CanClaim, claim_guest_wallet_moves, claim_guest_wallet_once}
use ggumirror_be.Shards.Keys.{idempotency_hash-injective}
use ggumirror_be.Shards.Refund.{merge}
use ggumirror_be.Shards.Service.{has_event}
use ggumirror_be.Shards.Store.{event_applied}
use ggumirror_be.Shards.Attendance.{attendance_date}
use ggumirror_be.Shards.RefundLaws.{refund_first, refund-IsSound}
use ggumirror_be.Shards.RefundOnce.{refund_twice}
use ggumirror_be.Shards.Reversal.{reverse_refund_restores, reverse_refund-IsSound}
use ggumirror_be.Shards.AttendanceLaws.{answer, attendance_first, attendance_again}

abbrev pub plain : Text → Text
plain t = t

abbrev pub alice : Text
alice = codes "alice"

abbrev pub bob : Text
bob = codes "bob"

abbrev pub grant : Change
grant = record {
  user_id = alice;
  delta = pos 100;
  reason = iap_purchase;
  key = some (codes "k1");
  quota = none;
  claim = none;
}

abbrev pub granted : ShardStore
granted = (apply grant (codes "e1") 10 empty_store).1

pub empty_store-IsSound : IsSound empty_store
unfolding get balance_of wallet empty_wallet ledger_sum
empty_store-IsSound = record { wallets_ok = λ u w e. ground arith; ledger = λ u. refl }

pub empty_store-IsIndexed : IsIndexed empty_store
unfolding get key_count
empty_store-IsIndexed = record { missing = λ key e. refl; once = λ key. omega arith }

pub granted-IsSound : IsSound granted
granted-IsSound = apply-IsSound grant (codes "e1") 10 empty_store empty_store-IsSound

pub granted-IsIndexed : IsIndexed granted
granted-IsIndexed = apply-IsIndexed grant (codes "e1") 10 empty_store empty_store-IsIndexed

pub alice≢bob : alice ≢ bob
unfolding text_eqb
alice≢bob e = true≢false (sym ((text_eqb_iff alice bob).1 e))

apply-IsSound_example : IsSound (apply grant (codes "e2") 11 granted).1
apply-IsSound_example = apply-IsSound grant (codes "e2") 11 granted granted-IsSound

apply_once_example : apply grant (codes "e2") 11 granted ≡ (
  ok (wallet granted 11 alice, changed_entry empty_store grant (codes "e1") 10, false),
  granted,
)
unfolding apply apply_new claim_conflict already_applied quota_full get wallet empty_wallet ◌+ℤ◌
apply_once_example =
    apply_once grant grant (codes "k1") (codes "e1") (codes "e2") 10 11 empty_store refl refl refl
      refl refl

abbrev ad : Change
ad = record grant {
  reason = rewarded_ad;
  key = some (codes "k2");
  quota = some (record { key = codes "today"; limit = 5 });
}

abbrev spend : Change
spend = record grant { delta = neg (pos 7); key = some (codes "k3") }

plain-IsCollisionFree : IsCollisionFree plain
plain-IsCollisionFree a b e = e

idempotency_hash-injective_example :
    (alice ≡ alice) × (iap_purchase ≡ iap_purchase) × (codes "t" ≡ codes "t")
idempotency_hash-injective_example =
    idempotency_hash-injective plain plain-IsCollisionFree alice alice iap_purchase iap_purchase
      (codes "t") (codes "t") refl

alice-CanClaim : CanClaim plain alice bob 12 granted
unfolding apply apply_new claim_conflict already_applied quota_full get wallet empty_wallet ◌+ℤ◌
    write_change changed_wallet changed_entry moved_wallet new_entry insert balance_of
    idempotency_hash canonical part rest_parts length decimal digits reason_value text_eqb
alice-CanClaim = record {
  sound = granted-IsSound;
  other = alice≢bob;
  guest_free = refl;
  owner_free = refl;
  something = omega arith;
}

claim_guest_wallet_moves_example :
    let (r, s') = claim_guest_wallet plain alice bob 12 granted in
    (r ≡ ok (balance_of granted alice))
    × (balance_of s' alice ≡ pos 0)
    × (balance_of s' bob ≡ balance_of granted bob +ℤ balance_of granted alice)
    × ((v : Text) → v ≢ alice → v ≢ bob → balance_of s' v ≡ balance_of granted v)
    × IsSound s'
claim_guest_wallet_moves_example =
    claim_guest_wallet_moves plain alice bob 12 granted alice-CanClaim

abbrev handed : Change
handed = record grant { reason = guest_claim; key = some (guest_key plain alice bob) }

abbrev handed_store : ShardStore
handed_store = (apply handed (codes "e1") 10 empty_store).1
