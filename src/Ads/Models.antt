-- ===== src/Ads/Models.antt =====
-- app/ads/models.py and app/ads/store.py: the callback, what is answered, and the short-lived
-- context that stands for a user in it. A time is a number of seconds.
use ggumirror_be.Base.{ℕ, ◌+◌, ◌*◌, Bool, true, false, ltb, Option}
use ggumirror_be.Base.Int.{ℤ}
use ggumirror_be.Base.Text.{Text, text_eq}
use ggumirror_be.Base.Dict.{Dict, get, insert}
use ggumirror_be.Base.Exec.{
  RewardedAdReason, keys_unavailable, ad_not_configured, unexpected_ad_unit, unexpected_reward,
  missing_context, unknown_context, expired_context,
}

abbrev pub reward_per_ad : ℕ
reward_per_ad = 1

abbrev pub daily_reward_limit : ℕ
daily_reward_limit = 5

-- `RewardedAdError.is_upstream_failure`
unfoldable pub is_upstream_failure : RewardedAdReason → Bool
is_upstream_failure keys_unavailable = true
is_upstream_failure _ = false

-- `RewardedAdError.is_permanent_non_reward`, by `PERMANENT_NON_REWARD`
unfoldable pub is_permanent_non_reward : RewardedAdReason → Bool
is_permanent_non_reward ad_not_configured = true
is_permanent_non_reward unexpected_ad_unit = true
is_permanent_non_reward unexpected_reward = true
is_permanent_non_reward missing_context = true
is_permanent_non_reward unknown_context = true
is_permanent_non_reward expired_context = true
is_permanent_non_reward _ = false

pub record VerifiedRewardCallback : Type 0 where
  pub transaction_id : Text
  pub ad_unit : Text
  pub reward_amount : ℤ
  pub reward_item : Text
  pub timestamp : ℕ
  pub custom_data : Text

pub record RewardOutcome : Type 0 where
  pub granted : Bool
  pub duplicate : Bool
  pub limit_reached : Bool

abbrev pub context_lifetime : ℕ
context_lifetime = 6 * 3600

pub record RewardContext : Type 0 where
  pub token_hash : Text
  pub user_id : Text
  pub expires_at : ℕ
  pub created_at : ℕ

unfoldable pub is_valid : RewardContext → ℕ → Bool
is_valid c now = ltb now c.expires_at

unfoldable pub new_context : (Text → Text) → Text → Text → ℕ → RewardContext
new_context sha256 u token now = record {
  token_hash = sha256 token;
  user_id = u;
  expires_at = now + context_lifetime;
  created_at = now;
}

-- `InMemoryRewardContextStore`
abbrev pub Contexts : Type 0
Contexts = Dict Text RewardContext

unfoldable pub save : RewardContext → Contexts → Contexts
save c d = insert c.token_hash c d

unfoldable pub context : Text → Contexts → Option RewardContext
context hash d = get hash d
