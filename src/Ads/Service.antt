-- ===== src/Ads/Service.antt =====
-- app/ads/service.py, `RewardedAdService`. The check of Google's signature (app/ads/verifier.py) is
-- the parameter `verify`, which raises or returns the callback.
use ggumirror_be.Base.{
  ℕ, ◌-◌, Bool, true, false, not, ◌&&◌, ◌||◌, none, some, [], ◌∷◌, ltb, if◌then◌else◌,
}
use ggumirror_be.Base.Int.{ℤ, pos, leb_ℤ}
use ggumirror_be.Base.Text.{Text, text_eq, ◌==◌}
use ggumirror_be.Base.Exec.{
  Result, ok, err, ◌>>=◌, ◌>>◌, raise_if, or_raise, rewarded_ad_error, ad_not_configured,
  unexpected_ad_unit, unexpected_reward, missing_context, unknown_context, expired_context,
  quota_exceeded,
}
use ggumirror_be.Shards.Models.{rewarded_ad, ShardMutationResult}
use ggumirror_be.Shards.Store.{ShardStore}
use ggumirror_be.Shards.Service.{credit, period_used}
use ggumirror_be.Shards.Attendance.{attendance_date}
use ggumirror_be.Ads.Models.{
  reward_per_ad, daily_reward_limit, VerifiedRewardCallback, RewardOutcome, Contexts, is_valid,
  new_context, save, context,
}

pub record RewardedAdConfig : Type 0 where
  pub ad_unit : Text
  pub reward_item : Text
  pub reward_amount : ℤ

pub record RewardedAdStatus : Type 0 where
  pub rewarded_today : ℕ
  pub remaining_today : ℕ
  pub daily_limit : ℕ

-- The service's settings and what it calls.
pub record RewardedAdService : Type 0 where
  pub config : RewardedAdConfig
  pub verify : Text → Result VerifiedRewardCallback
  pub sha256 : Text → Text
  pub date_text : ℕ → Text

-- The stores that it works on.
pub record AdStore : Type 0 where
  pub contexts : Contexts
  pub shards : ShardStore

abbrev is_empty : Text → Bool
is_empty [] = true
is_empty (c ∷ t) = false

abbrev int_eqb : ℤ → ℤ → Bool
int_eqb a b = leb_ℤ a b && leb_ℤ b a

unfoldable pub is_configured : RewardedAdConfig → Bool
is_configured c = not (is_empty c.ad_unit) && not (is_empty c.reward_item)

abbrev pub granted_outcome : RewardOutcome
granted_outcome = record { granted = true; duplicate = false; limit_reached = false }

abbrev pub duplicate_outcome : RewardOutcome
duplicate_outcome = record { granted = false; duplicate = true; limit_reached = false }

abbrev pub limit_outcome : RewardOutcome
limit_outcome = record { granted = false; duplicate = false; limit_reached = true }

-- What `_grant` answers for what the ledger answered.
abbrev pub outcome : Result ShardMutationResult × ShardStore → Result RewardOutcome × ShardStore
outcome (ok r, s) = (ok (if r.applied then granted_outcome else duplicate_outcome), s)
outcome (err quota_exceeded, s) = (ok limit_outcome, s)
outcome (err e, s) = (err e, s)

module _ (c : RewardedAdService) where
  unfoldable pub status : Text → ℕ → AdStore → RewardedAdStatus
  status u now st =
      let used = period_used c.sha256 st.shards u rewarded_ad (attendance_date c.date_text now) in
      let capped = if ltb used daily_reward_limit then used else daily_reward_limit in
      record {
        rewarded_today = capped;
        remaining_today = daily_reward_limit - capped;
        daily_limit = daily_reward_limit;
      }

  unfoldable pub issue_context : Text → Text → ℕ → AdStore → AdStore
  issue_context u token now st = record st {
    contexts = save (new_context c.sha256 u token now) st.contexts;
  }

  -- `_check_product`
  unfoldable pub check_product : VerifiedRewardCallback → Result (Unit {0})
  check_product cb = do
    raise_if (not (is_configured c.config)) (rewarded_ad_error ad_not_configured)
    raise_if (not (cb.ad_unit == c.config.ad_unit)) (rewarded_ad_error unexpected_ad_unit)
    raise_if
        (not (cb.reward_item == c.config.reward_item)
          || not (int_eqb cb.reward_amount c.config.reward_amount))
        (rewarded_ad_error unexpected_reward)

  -- `_resolve_user`
  unfoldable pub resolve_user : VerifiedRewardCallback → ℕ → Contexts → Result Text
  resolve_user cb now d = do
    raise_if (is_empty cb.custom_data) (rewarded_ad_error missing_context)
    found ← or_raise (context (c.sha256 cb.custom_data) d) (rewarded_ad_error unknown_context)
    raise_if (not (is_valid found now)) (rewarded_ad_error expired_context)
    ok found.user_id

  -- The day that a callback counts for.
  unfoldable pub reward_day : VerifiedRewardCallback → Text
  reward_day cb = attendance_date c.date_text cb.timestamp

  -- `_grant`
  unfoldable pub grant :
      Text → VerifiedRewardCallback → Text → ℕ → ShardStore → Result RewardOutcome × ShardStore
  grant u cb fresh now s = outcome (
      credit c.sha256 u (pos reward_per_ad) rewarded_ad (some cb.transaction_id)
        (some (reward_day cb)) (some daily_reward_limit) none fresh now s)

  -- The callback that is paid for, with its user.
  unfoldable pub checked_callback : Text → ℕ → Contexts → Result (Text × VerifiedRewardCallback)
  checked_callback raw now d = do
    cb ← c.verify raw
    check_product cb
    u ← resolve_user cb now d
    ok (u, cb)

  abbrev pub grant_if :
      Result (Text × VerifiedRewardCallback)
      → Text
      → ℕ
      → ShardStore
      → Result RewardOutcome × ShardStore
  grant_if (err e) fresh now s = (err e, s)
  grant_if (ok (u, cb)) fresh now s = grant u cb fresh now s

  abbrev with_contexts :
      Contexts → Result RewardOutcome × ShardStore → Result RewardOutcome × AdStore
  with_contexts d (r, s) = (r, record { contexts = d; shards = s })

  unfoldable pub handle_callback : Text → Text → ℕ → AdStore → Result RewardOutcome × AdStore
  handle_callback raw fresh now st =
      with_contexts st.contexts
        (grant_if (checked_callback raw now st.contexts) fresh now st.shards)
