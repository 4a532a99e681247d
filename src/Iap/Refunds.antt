-- ===== src/Iap/Refunds.antt =====
-- app/iap/refunds.py: what a refund takes back, and what its reversal gives.
use ggumirror_be.Base.{
  ℕ, Bool, true, false, not, ◌&&◌, ◌||◌, Option, none, some, [], ◌∷◌, if◌then◌else◌,
}
use ggumirror_be.Base.Int.{ℤ, pos, ◌-ℤ◌, times, floor_div, max_ℤ, min_ℤ, ltb_ℤ, leb_ℤ}
use ggumirror_be.Base.Text.{Text, codes, text_eq, ◌==◌}
use ggumirror_be.Base.Dict.{get}
use ggumirror_be.Base.Exec.{
  Error, Result, ok, err, ◌>>=◌, ◌>>◌, raise_if, invalid_transaction, refund_mismatch,
  purchase_claim_missing, refund_record_missing, refund_not_yet_processed, notification_not_handled,
}
use ggumirror_be.Shards.Models.{
  Document, Value, text, int, null, int_or_zero, is_text, optional_text, DocumentKey, RefundPlan,
  ShardRefundResult, ShardRefundReversalResult,
}
use ggumirror_be.Shards.Store.{ShardStore}
use ggumirror_be.Shards.Service.{refund_iap, reverse_iap_refund}
use ggumirror_be.Iap.Models.{
  VerifiedTransaction, VerifiedNotification, refund_full, refund_prorated, family_revoke,
  account_token_user_id, Uuid, transaction_claim_id, refund_record_id,
}
use ggumirror_be.Iap.Service.{transactions}

abbrev pub refunds : Text
refunds = codes "ggumirror_iap_refunds"

abbrev pub milliunits_per_unit : ℕ
milliunits_per_unit = 100_000

abbrev prorated : ℤ → Option ℤ → Result ℤ
prorated original none = err invalid_transaction
prorated original (some p) =
    if leb_ℤ p (pos 0) || ltb_ℤ (pos milliunits_per_unit) p
    then err invalid_transaction
    else ok (min_ℤ original (max_ℤ (pos 1) (floor_div (times original p) milliunits_per_unit)))

unfoldable pub requested_amount : ℤ → Text → Option ℤ → Result ℤ
requested_amount original revocation p =
    if revocation == refund_full then ok original else prorated original p

abbrev pub text_or_empty : Option Text → Text
text_or_empty none = []
text_or_empty (some t) = t

-- `_plan`
unfoldable pub refund_plan : VerifiedTransaction → Text → Document → Result RefundPlan
refund_plan t u claim = do
  let original = int_or_zero (get (codes "amount") claim)
  raise_if (leb_ℤ original (pos 0)) refund_mismatch
  raise_if (not (is_text (get (codes "productId") claim) t.product_id)) refund_mismatch
  raise_if (not (is_text (get (codes "environment") claim) t.environment)) refund_mismatch
  raise_if (not (is_text (get (codes "userId") claim) u)) refund_mismatch
  requested ←
      requested_amount original (text_or_empty t.revocation_type) t.revocation_percentage_milliunits
  ok (record { requested = requested; fields = (codes "originalAmount", int original) ∷ [] })

-- `_remaining`
unfoldable pub remaining_amount : VerifiedTransaction → Text → Document → Result ℤ
remaining_amount t u doc = do
  raise_if (not (is_text (get (codes "productId") doc) t.product_id)) refund_mismatch
  raise_if (not (is_text (get (codes "environment") doc) t.environment)) refund_mismatch
  raise_if (not (is_text (get (codes "userId") doc) u)) refund_mismatch
  let recovered = int_or_zero (get (codes "recoveredAmount") doc)
  let reversed_already = int_or_zero (get (codes "reversedAmount") doc)
  ok (max_ℤ (pos 0) (recovered -ℤ reversed_already))

abbrev optional_int : Option ℤ → Value
optional_int none = null
optional_int (some n) = int n

-- A purchase that was never paid out has nothing to take back.
abbrev pub recovery_error : Error → Result (Unit {0})
recovery_error purchase_claim_missing = ok tt
recovery_error e = err e

abbrev pub recovered : Result ShardRefundResult × ShardStore → Result (Unit {0}) × ShardStore
recovered (ok r, s) = (ok tt, s)
recovered (err e, s) = (recovery_error e, s)

abbrev is_some_text : Option Text → Text → Bool
is_some_text none t = false
is_some_text (some u) t = u == t

abbrev is_missing : {A : Type 0} → Option A → Bool
is_missing none = true
is_missing (some a) = false

-- Revocations that take nothing back: a family's, a prorated one with no percentage, and any kind
-- that is not known.
unfoldable pub is_skipped : VerifiedTransaction → Bool
is_skipped t =
    is_some_text t.revocation_type family_revoke
    || (is_some_text t.revocation_type refund_prorated
        && is_missing t.revocation_percentage_milliunits)
    || not (
        is_some_text t.revocation_type refund_full
        || is_some_text t.revocation_type refund_prorated)

-- A refund that was never made needs no reversal; one that is still to come is asked for again.
abbrev pub reversal_error : Error → Result (Unit {0})
reversal_error refund_record_missing = ok tt
reversal_error refund_not_yet_processed = err notification_not_handled
reversal_error e = err e

abbrev pub reversed : Result ShardRefundReversalResult × ShardStore → Result (Unit {0}) × ShardStore
reversed (ok r, s) = (ok tt, s)
reversed (err e, s) = (reversal_error e, s)

module _ (sha256 : Text → Text) (uuid : Uuid) where
  abbrev pub purchase_key : VerifiedTransaction → DocumentKey
  purchase_key t = record {
    collection = transactions;
    key = transaction_claim_id sha256 t.transaction_id;
  }

  abbrev pub record_key : VerifiedTransaction → DocumentKey
  record_key t = record { collection = refunds; key = refund_record_id sha256 t.transaction_id }

  unfoldable pub recovery_document : VerifiedTransaction → Document
  recovery_document t =
      (codes "productId", text t.product_id)
      ∷ (codes "environment", text t.environment)
      ∷ (codes "purchaseTransactionClaimId", text (transaction_claim_id sha256 t.transaction_id))
      ∷ (codes "revocationType", optional_text t.revocation_type)
      ∷ (codes "revocationPercentage", optional_int t.revocation_percentage_milliunits)
      ∷ (codes "schemaVersion", int (pos 1))
      ∷ []

  -- `_recover`
  unfoldable pub recover_refund :
      VerifiedTransaction → Text → ℕ → ShardStore → Result (Unit {0}) × ShardStore
  recover_refund t u now s = recovered (
      refund_iap sha256 u t.transaction_id (purchase_key t) (record_key t) (recovery_document t)
        (refund_plan t u) now s)

  abbrev pub recover_for :
      VerifiedTransaction → Option Text → ℕ → ShardStore → Result (Unit {0}) × ShardStore
  recover_for t none now s = (ok tt, s)
  recover_for t (some u) now s = recover_refund t u now s

  abbrev pub refund_of :
      Option VerifiedTransaction → ℕ → ShardStore → Result (Unit {0}) × ShardStore
  refund_of none now s = (ok tt, s)
  refund_of (some t) now s =
      if is_skipped t
      then (ok tt, s)
      else recover_for t (account_token_user_id uuid t.app_account_token) now s

  -- `handle` of the refund service
  unfoldable pub handle_refund :
      VerifiedNotification → ℕ → ShardStore → Result (Unit {0}) × ShardStore
  handle_refund n now s = refund_of n.transaction now s

  abbrev pub reverse_for :
      VerifiedTransaction → Option Text → ℕ → ShardStore → Result (Unit {0}) × ShardStore
  reverse_for t none now s = (ok tt, s)
  reverse_for t (some u) now s = reversed (
      reverse_iap_refund sha256 u t.transaction_id (purchase_key t) (record_key t)
        (remaining_amount t u) now s)

  abbrev pub reversal_of :
      Option VerifiedTransaction → ℕ → ShardStore → Result (Unit {0}) × ShardStore
  reversal_of none now s = (ok tt, s)
  reversal_of (some t) now s = reverse_for t (account_token_user_id uuid t.app_account_token) now s

  -- `handle_reversal`
  unfoldable pub handle_reversal :
      VerifiedNotification → ℕ → ShardStore → Result (Unit {0}) × ShardStore
  handle_reversal n now s = reversal_of n.transaction now s
