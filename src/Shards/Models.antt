-- ===== src/Shards/Models.antt =====
-- app/shards/models.py: the data of the shard ledger.
use ggumirror_be.Base.{ℕ, Bool, false, Option, none, some}
use ggumirror_be.Base.Int.{ℤ, pos}
use ggumirror_be.Base.Text.{Text, codes, ◌==◌, text_eq}
use ggumirror_be.Base.Dict.{Dict}

abbrev pub schema_version : ℕ
schema_version = 1

abbrev pub max_delta : ℕ
max_delta = 100_000

pub data ShardReason : Type 0 where
  daily_attendance rewarded_ad iap_purchase ai_sticker ai_mirror : ShardReason
  mirror_purchase mirror_sale sticker_purchase sticker_sale : ShardReason
  marketplace_moderation_compensation mirror_publish_fee sticker_publish_fee : ShardReason
  refund iap_refund iap_refund_reversed mirror_capacity_purchase : ShardReason
  catalog_template_purchase guest_claim admin_adjustment : ShardReason

-- `reason.value`
unfoldable pub reason_value : ShardReason → Text
reason_value daily_attendance = codes "daily_attendance"
reason_value rewarded_ad = codes "rewarded_ad"
reason_value iap_purchase = codes "iap_purchase"
reason_value ai_sticker = codes "ai_sticker"
reason_value ai_mirror = codes "ai_mirror"
reason_value mirror_purchase = codes "mirror_purchase"
reason_value mirror_sale = codes "mirror_sale"
reason_value sticker_purchase = codes "sticker_purchase"
reason_value sticker_sale = codes "sticker_sale"
reason_value marketplace_moderation_compensation = codes "marketplace_moderation_compensation"
reason_value mirror_publish_fee = codes "mirror_publish_fee"
reason_value sticker_publish_fee = codes "sticker_publish_fee"
reason_value refund = codes "refund"
reason_value iap_refund = codes "iap_refund"
reason_value iap_refund_reversed = codes "iap_refund_reversed"
reason_value mirror_capacity_purchase = codes "mirror_capacity_purchase"
reason_value catalog_template_purchase = codes "catalog_template_purchase"
reason_value guest_claim = codes "guest_claim"
reason_value admin_adjustment = codes "admin_adjustment"

-- Times are numbers of the server's clock.
pub record ShardWallet : Type 0 where
  pub user_id : Text
  pub balance : ℤ
  pub lifetime_earned : ℤ
  pub lifetime_spent : ℤ
  pub lifetime_refunded : ℤ
  pub lifetime_refund_reversed : ℤ
  pub created_at : ℕ
  pub updated_at : ℕ

-- `ShardWallet.empty`, created at the clock's time.
unfoldable pub empty_wallet : Text → ℕ → ShardWallet
empty_wallet u now = record {
  user_id = u;
  balance = pos 0;
  lifetime_earned = pos 0;
  lifetime_spent = pos 0;
  lifetime_refunded = pos 0;
  lifetime_refund_reversed = pos 0;
  created_at = now;
  updated_at = now;
}

pub record ShardLedgerEntry : Type 0 where
  pub id : Text
  pub user_id : Text
  pub delta : ℤ
  pub balance_after : ℤ
  pub reason : ShardReason
  pub idempotency_key_hash : Option Text
  pub created_at : ℕ
  pub version : ℕ

-- A value of a stored document.
pub data Value : Type 0 where
  text : Text → Value
  int : ℤ → Value
  time : ℕ → Value
  null : Value

abbrev pub Document : Type 0
Document = Dict Text Value

-- `int(document.get(field) or 0)`; the program stores only integers in the fields it reads so.
abbrev pub int_or_zero : Option Value → ℤ
int_or_zero (some (int n)) = n
int_or_zero _ = pos 0

-- `document.get(field) == text`
abbrev pub is_text : Option Value → Text → Bool
is_text (some (text t)) u = t == u
is_text _ u = false

-- `document.get(field)`, where the field holds an optional text
abbrev pub text_of : Option Value → Option Text
text_of (some (text t)) = some t
text_of _ = none

abbrev pub optional_text : Option Text → Value
optional_text none = null
optional_text (some t) = text t

pub record PeriodQuota : Type 0 where
  pub key : Text
  pub limit : ℕ

pub record ExclusiveClaim : Type 0 where
  pub collection : Text
  pub key : Text
  pub document : Document
  pub owner_field : Text

pub record DocumentKey : Type 0 where
  pub collection : Text
  pub key : Text

pub record RefundPlan : Type 0 where
  pub requested : ℤ
  pub fields : Document

pub record ShardRefundResult : Type 0 where
  pub wallet : ShardWallet
  pub requested : ℤ
  pub recovered : ℤ
  pub applied : Bool
  pub ledger_entry_id : Option Text

pub record ShardRefundReversalResult : Type 0 where
  pub wallet : ShardWallet
  pub restored : ℤ
  pub applied : Bool
  pub ledger_entry_id : Option Text

pub record ShardMutationResult : Type 0 where
  pub wallet : ShardWallet
  pub applied : Bool
  pub entry_id : Option Text
