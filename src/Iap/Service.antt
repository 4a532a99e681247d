-- ===== src/Iap/Service.antt =====
-- app/iap/service.py, `IAPService`: shards for a signed transaction.
use ggumirror_be.Base.{
  ℕ, Bool, true, false, not, ◌&&◌, ◌||◌, Option, none, some, List, [], ◌∷◌, if◌then◌else◌,
}
use ggumirror_be.Base.Int.{ℤ, pos}
use ggumirror_be.Base.Text.{Text, codes, text_eq, ◌==◌}
use ggumirror_be.Base.Exec.{
  Error, Result, ok, err, ◌>>=◌, ◌>>◌, raise_if, or_raise, iap_unavailable, invalid_transaction,
  unknown_product, environment_not_allowed, account_token_mismatch, transaction_already_claimed,
  claim_owned_by_another, store_unavailable,
}
use ggumirror_be.Auth.Models.{User}
use ggumirror_be.Shards.Models.{
  iap_purchase, Document, text, int, ExclusiveClaim, ShardMutationResult,
}
use ggumirror_be.Shards.Store.{ShardStore}
use ggumirror_be.Shards.Scoped.{member}
use ggumirror_be.Shards.Service.{credit}
use ggumirror_be.Iap.Models.{
  VerifiedTransaction, shard_amount, consumable_type, IapResult, transaction_claim_id, Uuid,
  same_account_token,
}

abbrev pub transactions : Text
transactions = codes "ggumirror_iap_transactions"

-- The service's settings, the verifier of Apple's signatures, the users that it reads, and the
-- functions of Python that it calls.
pub record IapService : Type 0 where
  pub is_configured : Bool
  pub verify : Text → Result VerifiedTransaction
  pub bundle_id : Text
  pub allowed_environments : List Text
  pub users : Option (Text → Result (Option User))
  pub sha256 : Text → Text
  pub uuid : Uuid
  pub strip : Text → Text

abbrev pub is_empty : {A : Type 0} → List A → Bool
is_empty [] = true
is_empty (x ∷ xs) = false

-- Only a store that cannot be read is taken for "not the owner".
abbrev pub owner_of : Result (Option User) → Result (Option User)
owner_of (ok owner) = ok owner
owner_of (err store_unavailable) = ok none
owner_of (err e) = err e

module _ (c : IapService) where
  unfoldable pub is_available : Bool
  is_available = c.is_configured && not (is_empty c.allowed_environments)

  -- `_check_shape`
  unfoldable pub check_shape : VerifiedTransaction → Result (Unit {0})
  check_shape t = do
    raise_if (not (is_empty c.bundle_id) && not (t.bundle_id == c.bundle_id)) invalid_transaction
    raise_if (not (t.transaction_type == consumable_type)) invalid_transaction
    raise_if (not (member t.environment c.allowed_environments)) environment_not_allowed

  -- `_check_product`
  unfoldable pub check_product : VerifiedTransaction → Result ℤ
  check_product t = or_raise (shard_amount t) unknown_product

  abbrev pub is_claimed_by : User → Option User → Bool
  is_claimed_by user none = false
  is_claimed_by user (some owner) =
      owner.is_guest && same_account_token c.uuid owner.claimed_by_user_id user.id

  abbrev pub claimed_guest : Option Text → User → Option (Text → Result (Option User)) → Result Bool
  claimed_guest none user users = ok false
  claimed_guest (some []) user users = ok false
  claimed_guest (some (b ∷ t)) user none = ok false
  claimed_guest (some (b ∷ t)) user (some read) = do
    owner ← owner_of (read (b ∷ t))
    ok (is_claimed_by user owner)

  -- `_claimed_guest_of`
  unfoldable pub claimed_guest_of : Option Text → User → Result Bool
  claimed_guest_of token user = claimed_guest token user c.users

  -- `_check_owner`
  unfoldable pub check_owner : VerifiedTransaction → User → Result (Unit {0})
  check_owner t user = if same_account_token c.uuid t.app_account_token user.id then ok tt else do
    claimed ← claimed_guest_of t.app_account_token user
    raise_if (not claimed) account_token_mismatch

  unfoldable pub purchase_document : VerifiedTransaction → ℤ → Document
  purchase_document t amount =
      (codes "productId", text t.product_id)
      ∷ (codes "amount", int amount)
      ∷ (codes "environment", text t.environment)
      ∷ (codes "schemaVersion", int (pos 1))
      ∷ []

  -- `ExclusiveClaim(…)` of `_apply`, whose owner field is "userId" by default.
  unfoldable pub purchase_claim : VerifiedTransaction → ℤ → ExclusiveClaim
  purchase_claim t amount = record {
    collection = transactions;
    key = transaction_claim_id c.sha256 t.transaction_id;
    document = purchase_document t amount;
    owner_field = codes "userId";
  }

  abbrev pub credit_error : Error → Error
  credit_error claim_owned_by_another = transaction_already_claimed
  credit_error e = e

  abbrev pub credited : ℤ → Result ShardMutationResult × ShardStore → Result IapResult × ShardStore
  credited amount (err e, s) = (err (credit_error e), s)
  credited amount (ok r, s) =
      (ok (record { credited = r.applied; amount = amount; balance = r.wallet.balance }), s)

  -- `_apply`
  unfoldable pub apply_credit :
      VerifiedTransaction → User → ℤ → Text → ℕ → ShardStore → Result IapResult × ShardStore
  apply_credit t user amount fresh now s = credited amount (
      credit c.sha256 user.id amount iap_purchase (some t.transaction_id) none none
        (some (purchase_claim t amount)) fresh now s)

  -- Everything before the ledger: the transaction, and its amount.
  unfoldable pub checked_transaction : User → Text → Result (VerifiedTransaction × ℤ)
  checked_transaction user signed = do
    raise_if (not c.is_configured) iap_unavailable
    raise_if (is_empty signed || is_empty (c.strip signed)) invalid_transaction
    t ← c.verify (c.strip signed)
    check_shape t
    amount ← check_product t
    check_owner t user
    ok (t, amount)

  abbrev pub credit_if :
      User
      → Text
      → ℕ
      → ShardStore
      → Result (VerifiedTransaction × ℤ)
      → Result IapResult × ShardStore
  credit_if user fresh now s (err e) = (err e, s)
  credit_if user fresh now s (ok (t, amount)) = apply_credit t user amount fresh now s

  -- `credit`
  unfoldable pub credit_iap : User → Text → Text → ℕ → ShardStore → Result IapResult × ShardStore
  credit_iap user signed fresh now s = credit_if user fresh now s (checked_transaction user signed)
