-- ===== src/Iap/Models.antt =====
-- app/iap/models.py: what Apple has signed, the products, and the document ids. Python's `hashlib`,
-- `uuid` and `str.strip` are parameters.
use ggumirror_be.Base.{Bool, false, Option, none, some, List, [], ◌∷◌, if◌then◌else◌}
use ggumirror_be.Base.Int.{ℤ, pos}
use ggumirror_be.Base.Text.{Text, codes, text_eq, ◌==◌}
use ggumirror_be.Base.Dict.{Dict, get}
use ggumirror_be.Canonical.{canonical}
use ggumirror_be.Shards.Scoped.{member}

-- `SHARD_PRODUCTS`
abbrev pub shard_products : Dict Text ℤ
shard_products =
    (codes "com.mark77234.ggumirror.shards.10", pos 10)
    ∷ (codes "com.mark77234.ggumirror.shards.50", pos 50)
    ∷ (codes "com.mark77234.ggumirror.shards.100", pos 100)
    ∷ []

abbrev pub consumable_type : Text
consumable_type = codes "Consumable"

-- The values of `IAPEnvironment`.
abbrev pub production : Text
production = codes "Production"

abbrev pub sandbox : Text
sandbox = codes "Sandbox"

abbrev pub xcode : Text
xcode = codes "Xcode"

pub record VerifiedTransaction : Type 0 where
  pub transaction_id : Text
  pub product_id : Text
  pub bundle_id : Text
  pub environment : Text
  pub app_account_token : Option Text
  pub transaction_type : Text
  pub original_transaction_id : Option Text
  pub revocation_type : Option Text
  pub revocation_percentage_milliunits : Option ℤ

unfoldable pub shard_amount : VerifiedTransaction → Option ℤ
shard_amount t = get t.product_id shard_products

pub record VerifiedNotification : Type 0 where
  pub notification_type : Text
  pub subtype : Option Text
  pub notification_uuid : Text
  pub bundle_id : Text
  pub app_apple_id : Option ℤ
  pub environment : Text
  pub transaction : Option VerifiedTransaction

pub data NotificationOutcome : Type 0 where
  acknowledged deferred : NotificationOutcome

abbrev pub acknowledged_notifications : List Text
acknowledged_notifications =
    codes "TEST"
    ∷ codes "CONSUMPTION_REQUEST"
    ∷ codes "REFUND_DECLINED"
    ∷ codes "ONE_TIME_CHARGE"
    ∷ []

abbrev pub refund_notification : Text
refund_notification = codes "REFUND"

abbrev pub refund_reversed_notification : Text
refund_reversed_notification = codes "REFUND_REVERSED"

abbrev pub refund_full : Text
refund_full = codes "REFUND_FULL"

abbrev pub refund_prorated : Text
refund_prorated = codes "REFUND_PRORATED"

abbrev pub family_revoke : Text
family_revoke = codes "FAMILY_REVOKE"

pub record IapResult : Type 0 where
  pub credited : Bool
  pub amount : ℤ
  pub balance : ℤ

unfoldable pub transaction_claim_id : (Text → Text) → Text → Text
transaction_claim_id sha256 id = sha256 (canonical (codes "iap_transaction" ∷ id ∷ []))

unfoldable pub refund_record_id : (Text → Text) → Text → Text
refund_record_id sha256 id = sha256 (canonical (codes "iap_refund" ∷ id ∷ []))

-- `uuid.UUID(text)` in its canonical spelling, or none where it raises.
abbrev pub Uuid : Type 0
Uuid = Text → Option Text

unfoldable pub account_token_user_id : Uuid → Option Text → Option Text
account_token_user_id uuid none = none
account_token_user_id uuid (some []) = none
account_token_user_id uuid (some (c ∷ t)) = uuid (c ∷ t)

abbrev same_uuid : Option Text → Option Text → Bool
same_uuid (some a) (some b) = a == b
same_uuid _ _ = false

unfoldable pub same_account_token : Uuid → Option Text → Text → Bool
same_account_token uuid none u = false
same_account_token uuid (some []) u = false
same_account_token uuid (some (c ∷ t)) u = same_uuid (uuid (c ∷ t)) (uuid u)

-- The set that `parse_allowed_environments` keeps of the parts, each of which it strips.
unfoldable pub allowed_parts : (Text → Text) → List Text → List Text
allowed_parts strip [] = []
allowed_parts strip (p ∷ ps) =
    let rest = allowed_parts strip ps in
    if member (strip p) (production ∷ sandbox ∷ []) then strip p ∷ rest else rest

unfoldable pub parse_allowed_environments : (Text → Text) → (Text → List Text) → Text → List Text
parse_allowed_environments strip split raw = allowed_parts strip (split raw)
