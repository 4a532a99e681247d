-- ===== src/Shards/Refund.antt =====
-- app/shards/store.py: `refund` and `reverse_refund` of `InMemoryShardStore`, the two changes that
-- keep their own totals in the wallet.
use ggumirror_be.Base.{ℕ, true, false, Option, none, some, [], ◌∷◌, ◌++◌, if◌then◌else◌}
use ggumirror_be.Base.Int.{ℤ, pos, ◌+ℤ◌, ◌-ℤ◌, neg, min_ℤ, ltb_ℤ, leb_ℤ}
use ggumirror_be.Base.Text.{Text, codes, text_eq, pair_eq}
use ggumirror_be.Base.Dict.{get, insert}
use ggumirror_be.Base.Exec.{
  Error, Result, ok, err, purchase_claim_missing, refund_record_missing, refund_not_yet_processed,
}
use ggumirror_be.Shards.Models.{
  iap_refund, iap_refund_reversed, ShardWallet, ShardLedgerEntry, text, int, time, Document,
  int_or_zero, text_of, optional_text, DocumentKey, RefundPlan, ShardRefundResult,
  ShardRefundReversalResult,
}
use ggumirror_be.Shards.Store.{ShardStore, wallet, new_entry}

-- `{**document, **fields}`
unfoldable pub merge : Document → Document → Document
merge d [] = d
merge d ((k, v) ∷ fields) = merge (insert k v d) fields

-- `claims.get(key)`, where an empty document counts as none
abbrev pub nonempty : Option Document → Option Document
nonempty (some (p ∷ d)) = some (p ∷ d)
nonempty _ = none

abbrev pub document_at : ShardStore → DocumentKey → Option Document
document_at s k = get (k.collection, k.key) s.claims

unfoldable pub refunded_wallet : ShardWallet → Text → ℤ → ℕ → ShardWallet
refunded_wallet current u recovered now = record {
  user_id = u;
  balance = current.balance -ℤ recovered;
  lifetime_earned = current.lifetime_earned;
  lifetime_spent = current.lifetime_spent;
  lifetime_refunded = current.lifetime_refunded +ℤ recovered;
  lifetime_refund_reversed = current.lifetime_refund_reversed;
  created_at = current.created_at;
  updated_at = now;
}

unfoldable pub refund_entry : ShardWallet → Text → ℤ → Text → ℕ → ShardLedgerEntry
refund_entry current u recovered key now =
    new_entry key u (neg recovered) (current.balance -ℤ recovered) iap_refund (some key) now

unfoldable pub refund_document : Document → RefundPlan → Text → ℤ → Option Text → ℕ → Document
unfolding merge
refund_document document plan u recovered entry_id now = insert (codes "createdAt") (time now) (
    insert (codes "ledgerEntryId") (optional_text entry_id) (
      insert (codes "unrecoveredAmount") (int (plan.requested -ℤ recovered)) (
        insert (codes "recoveredAmount") (int recovered) (
          insert (codes "requestedAmount") (int plan.requested)
            (insert (codes "userId") (text u) (merge document plan.fields))))))

-- What a call of `refund` asks for.
pub record RefundRequest : Type 0 where
  pub user_id : Text
  pub purchase : DocumentKey
  pub target : DocumentKey
  pub document : Document
  pub key : Text
  pub plan : Document → Result RefundPlan

unfoldable pub recoverable : ShardStore → Text → RefundPlan → ℕ → ℤ
recoverable s u plan now = min_ℤ (wallet s now u).balance plan.requested

-- The ledger line and the wallet, which change only if something was recovered.
unfoldable pub write_recovery : Text → Text → ℤ → ℕ → ShardStore → ShardStore
write_recovery u key recovered now s =
    let entry = refund_entry (wallet s now u) u recovered key now in
    record s {
      wallets = insert u (refunded_wallet (wallet s now u) u recovered now) s.wallets;
      entries = s.entries ++ entry ∷ [];
      applied = insert key entry s.applied;
    }

unfoldable pub recover : Text → Text → ℤ → ℕ → ShardStore → ShardStore
recover u key recovered now s =
    if ltb_ℤ (pos 0) recovered then write_recovery u key recovered now s else s

unfoldable pub recovery_id : Text → ℤ → Option Text
recovery_id key recovered = if ltb_ℤ (pos 0) recovered then some key else none

unfoldable pub refund_new :
    RefundRequest → RefundPlan → ℕ → ShardStore → Result ShardRefundResult × ShardStore
refund_new r plan now s =
    let recovered = recoverable s r.user_id plan now in
    let s' = recover r.user_id r.key recovered now s in
    let entry_id = recovery_id r.key recovered in
    let doc = refund_document r.document plan r.user_id recovered entry_id now in
    (
      ok (record {
        wallet = wallet s' now r.user_id;
        requested = plan.requested;
        recovered = recovered;
        applied = true;
        ledger_entry_id = entry_id;
      }),
      record s' { claims = insert (r.target.collection, r.target.key) doc s'.claims },
    )

-- The outcome that an earlier call of the same refund recorded.
unfoldable pub refund_again : RefundRequest → Document → ℕ → ShardStore → ShardRefundResult
refund_again r existing now s = record {
  wallet = wallet s now r.user_id;
  requested = int_or_zero (get (codes "requestedAmount") existing);
  recovered = int_or_zero (get (codes "recoveredAmount") existing);
  applied = false;
  ledger_entry_id = text_of (get (codes "ledgerEntryId") existing);
}

abbrev pub refund_recorded :
    RefundRequest
    → RefundPlan
    → ℕ
    → ShardStore
    → Option Document
    → Result ShardRefundResult × ShardStore
refund_recorded r plan now s (some existing) = (ok (refund_again r existing now s), s)
refund_recorded r plan now s none = refund_new r plan now s

abbrev pub refund_planned :
    RefundRequest → ℕ → ShardStore → Result RefundPlan → Result ShardRefundResult × ShardStore
refund_planned r now s (err e) = (err e, s)
refund_planned r now s (ok plan) = refund_recorded r plan now s (nonempty (document_at s r.target))

abbrev pub refund_claimed :
    RefundRequest → ℕ → ShardStore → Option Document → Result ShardRefundResult × ShardStore
refund_claimed r now s none = (err purchase_claim_missing, s)
refund_claimed r now s (some claim) = refund_planned r now s (r.plan claim)

unfoldable pub refund_purchase :
    RefundRequest → ℕ → ShardStore → Result ShardRefundResult × ShardStore
refund_purchase r now s = refund_claimed r now s (document_at s r.purchase)

-- What a call of `reverse_refund` asks for.
pub record ReversalRequest : Type 0 where
  pub user_id : Text
  pub purchase : DocumentKey
  pub target : DocumentKey
  pub key : Text
  pub remaining : Document → Result ℤ

unfoldable pub restored_wallet : ShardWallet → Text → ℤ → ℕ → ShardWallet
restored_wallet current u restorable now = record {
  user_id = u;
  balance = current.balance +ℤ restorable;
  lifetime_earned = current.lifetime_earned;
  lifetime_spent = current.lifetime_spent;
  lifetime_refunded = current.lifetime_refunded;
  lifetime_refund_reversed = current.lifetime_refund_reversed +ℤ restorable;
  created_at = current.created_at;
  updated_at = now;
}

unfoldable pub reversal_entry : ShardWallet → Text → ℤ → Text → ℕ → ShardLedgerEntry
reversal_entry current u restorable key now =
    new_entry key u restorable (current.balance +ℤ restorable) iap_refund_reversed (some key) now

unfoldable pub reversed_document : Document → ℤ → Text → ℕ → Document
reversed_document existing restorable key now = insert (codes "reversedAt") (time now) (
    insert (codes "reversalLedgerEntryId") (text key) (
      insert (codes "reversedAmount")
        (int (int_or_zero (get (codes "reversedAmount") existing) +ℤ restorable)) existing))

unfoldable pub write_reversal : ReversalRequest → Document → ℤ → ℕ → ShardStore → ShardStore
write_reversal r existing restorable now s =
    let entry = reversal_entry (wallet s now r.user_id) r.user_id restorable r.key now in
    record s {
      wallets =
          insert r.user_id (restored_wallet (wallet s now r.user_id) r.user_id restorable now)
            s.wallets;
      entries = s.entries ++ entry ∷ [];
      applied = insert r.key entry s.applied;
      claims =
          insert (r.target.collection, r.target.key)
            (reversed_document existing restorable r.key now) s.claims;
    }

unfoldable pub reverse_new :
    ReversalRequest → Document → ℤ → ℕ → ShardStore → Result ShardRefundReversalResult × ShardStore
reverse_new r existing restorable now s =
    if leb_ℤ restorable (pos 0)
    then (
      ok (record {
        wallet = wallet s now r.user_id;
        restored = pos 0;
        applied = false;
        ledger_entry_id = text_of (get (codes "reversalLedgerEntryId") existing);
      }),
      s,
    )
    else (
      ok (record {
        wallet = restored_wallet (wallet s now r.user_id) r.user_id restorable now;
        restored = restorable;
        applied = true;
        ledger_entry_id = some r.key;
      }),
      write_reversal r existing restorable now s,
    )

abbrev pub reverse_remaining :
    ReversalRequest
    → Document
    → ℕ
    → ShardStore
    → Result ℤ
    → Result ShardRefundReversalResult × ShardStore
reverse_remaining r existing now s (err e) = (err e, s)
reverse_remaining r existing now s (ok restorable) = reverse_new r existing restorable now s

-- No record: what is missing says whether the refund may still arrive.
abbrev pub missing_record : Option Document → Error
missing_record none = refund_record_missing
missing_record (some claim) = refund_not_yet_processed

abbrev pub reverse_recorded :
    ReversalRequest
    → ℕ
    → ShardStore
    → Option Document
    → Result ShardRefundReversalResult × ShardStore
reverse_recorded r now s none = (err (missing_record (document_at s r.purchase)), s)
reverse_recorded r now s (some existing) = reverse_remaining r existing now s (r.remaining existing)

unfoldable pub reverse_refund :
    ReversalRequest → ℕ → ShardStore → Result ShardRefundReversalResult × ShardStore
reverse_refund r now s = reverse_recorded r now s (document_at s r.target)
