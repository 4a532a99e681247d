-- ===== src/Base/Exec.antt =====
-- Calls that may raise, and the exception classes.
use mathlib.Core.Path.{◌≡◌, refl}
use mathlib.Core.Logic.{◌⊎◌, inl, inr}
use mathlib.Core.Bool.{Bool, true, false}
use mathlib.Core.Option.{Option, none, some}

-- `AIStickerReason` (app/ai/models.py): why no image was made.
pub data AiStickerReason : Type 0 where
  not_configured empty_prompt prompt_too_long invalid_request_id : AiStickerReason
  provider_rejected provider_unavailable no_shards storage_failed : AiStickerReason
  not_found result_expired still_pending interrupted : AiStickerReason

-- `RewardedAdReason` (app/ads/models.py): why a callback was not paid.
pub data RewardedAdReason : Type 0 where
  missing_signature missing_key_id malformed_signature unknown_key_id : RewardedAdReason
  invalid_signature missing_field invalid_timestamp keys_unavailable : RewardedAdReason
  ad_not_configured unexpected_ad_unit unexpected_reward : RewardedAdReason
  missing_context unknown_context expired_context : RewardedAdReason

-- The exception classes of the program.
pub data Error : Type 0 where
  insufficient_shards invalid_shard_amount claim_owned_by_another purchase_claim_missing : Error
  refund_record_missing refund_not_yet_processed wallet_already_changed guest_claim_broken : Error
  quota_exceeded listing_not_found snapshot_not_found invalid_listing self_like : Error
  like_count_inconsistent self_purchase invalid_transition moderated_listing not_moderated : Error
  terminal_listing title_taken unknown_template purchase_required unknown_pack : Error
  invalid_transaction unknown_product environment_not_allowed notification_not_handled : Error
  account_token_mismatch transaction_already_claimed refund_mismatch iap_unavailable : Error
  key_error value_error asset_storage_unavailable asset_not_found : Error
  display_name_taken display_name_cooldown invalid_display_name : Error
  store_unavailable notification_not_found : Error
  ai_sticker_error : AiStickerReason → Error
  rewarded_ad_error : RewardedAdReason → Error

pub data Result (A : Type 0) : Type 0 where
  ok : A → Result A
  err : Error → Result A

-- A pure call that may raise.
infixl 5 ◌>>=◌ ◌>>◌
abbrev pub ◌>>=◌ : {A B : Type 0} → Result A → (A → Result B) → Result B
ok a >>= f = f a
err e >>= f = err e

abbrev pub ◌>>◌ : {B : Type 0} → Result (Unit {0}) → Result B → Result B
m >> k = m >>= λ _. k

abbrev pub raise_if : Bool → Error → Result (Unit {0})
raise_if true e = err e
raise_if false e = ok tt

abbrev pub or_raise : {A : Type 0} → Option A → Error → Result A
or_raise none e = err e
or_raise (some a) e = ok a

abbrev pub is_ok : {A : Type 0} → Result A → Bool
is_ok (ok _) = true
is_ok (err _) = false

pub Result-cases :
    {A : Type 0} (r : Result A) → ((a : A) × (r ≡ ok a)) ⊎ ((e : Error) × (r ≡ err e))
Result-cases (ok a) = inl (a, refl)
Result-cases (err e) = inr (e, refl)

-- What holds of every raise and of what follows every result holds of the chain.
pub bind-all :
    {A B : Type 0} (P : Result B → Type 0)
    → ((e : Error) → P (err e))
    → (r : Result A) (f : A → Result B) → ((a : A) → P (f a))
    → P (r >>= f)
bind-all P raised (ok a) f all = all a
bind-all P raised (err e) f all = raised e
