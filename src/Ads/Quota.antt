-- ===== src/Ads/Quota.antt =====
-- The daily limit of app/ads/service.py over any sequence of calls.
use ggumirror_be.Base.{
  ℕ, ◌+◌, ◌-◌, ◌≤◌, ◌≡◌, refl, ap₂, true, false, ◌&&◌, none, some, List, [], ◌∷◌, arith, inl, inr,
  ◌⊎◌, if◌then◌else◌, Bool-cases,
}
use ggumirror_be.Base.Int.{pos}
use ggumirror_be.Base.Text.{Text, text_eq, text_eqb_iff, ◌==◌}
use ggumirror_be.Base.Dict.{get-insert, get-insert_self}
use ggumirror_be.Base.Exec.{Result, ok, err, Result-cases}
use ggumirror_be.Shards.Models.{rewarded_ad, PeriodQuota}
use ggumirror_be.Shards.Store.{
  ShardStore, Change, Applied, apply, apply_new, quota_used, quota_full, write_change,
  claim_conflict,
}
use ggumirror_be.Shards.Service.{
  checked, credit, apply_change, event_key, mutation, quota_key, period_used,
}
use ggumirror_be.Shards.ApplyLaws.{apply-state}
use ggumirror_be.Ads.Models.{VerifiedRewardCallback, RewardOutcome, daily_reward_limit}
use ggumirror_be.Ads.Service.{
  RewardedAdService, AdStore, outcome, reward_day, grant, checked_callback, handle_callback,
  issue_context,
}

-- What a change under a limit does to a counter: it leaves it, or it counts one more below the
-- limit.
pub apply-quota_used :
    (c : Change) (fresh : Text) (now : ℕ) (s : ShardStore) (q : PeriodQuota) (j : Text)
    → c.quota ≡ some q
    → quota_used s j ≤ quota_used (apply c fresh now s).1 j
unfolding write_change quota_used
apply-quota_used c fresh now s q j e = ground (
  arith,
  apply-state c fresh now s,
  get-insert j q.key (quota_used s q.key + 1) s.quotas,
  text_eqb_iff j q.key,
)

-- One that is applied has room, and counts.
pub apply-counts :
    (c : Change) (fresh : Text) (now : ℕ) (s : ShardStore) (q : PeriodQuota) (r : Applied)
    → c.quota ≡ some q
    → (apply c fresh now s).0 ≡ ok r
    → r.2 ≡ true
    → (quota_used s q.key + 1 ≤ q.limit)
      × (quota_used (apply c fresh now s).1 q.key ≡ quota_used s q.key + 1)
unfolding apply apply_new write_change quota_used quota_full claim_conflict
apply-counts c fresh now s q r e done applied =
    ground (arith, get-insert_self q.key (quota_used s q.key + 1) s.quotas)

-- A call on the rewarded ads: a user asks for a context, or a callback arrives.
pub data AdCall : Type 0 where
  issue : Text → Text → ℕ → AdCall
  deliver : Text → Text → ℕ → AdCall

module _ (c : RewardedAdService) where
  -- What a callback of a user asks the ledger for.
  abbrev pub day_quota : Text → VerifiedRewardCallback → PeriodQuota
  day_quota u cb = record {
    key = quota_key c.sha256 u rewarded_ad (reward_day c cb);
    limit = daily_reward_limit;
  }

  abbrev pub ad_change : Text → VerifiedRewardCallback → Change
  ad_change u cb = record {
    user_id = u;
    delta = pos 1;
    reason = rewarded_ad;
    key = event_key c.sha256 u rewarded_ad (some cb.transaction_id);
    quota = some (day_quota u cb);
    claim = none;
  }

  pub grant-apply :
      (u : Text) (cb : VerifiedRewardCallback) (fresh : Text) (now : ℕ) (s : ShardStore)
      → grant c u cb fresh now s ≡ outcome (mutation (apply (ad_change u cb) fresh now s))
  unfolding grant credit apply_change checked
  grant-apply u cb fresh now s = refl

  unfoldable pub serve_ad : AdCall → AdStore → AdStore
  serve_ad (issue u token now) st = issue_context c u token now st
  serve_ad (deliver raw fresh now) st = (handle_callback c raw fresh now st).1

  unfoldable pub serve_ads : List AdCall → AdStore → AdStore
  serve_ads [] st = st
  serve_ads (call ∷ calls) st = serve_ads calls (serve_ad call st)

  module _ (u day : Text) where
    -- The counter of the user's shards for ads on a day.
    abbrev pub used : AdStore → ℕ
    used st = period_used c.sha256 st.shards u rewarded_ad day

    -- Whether an answer paid this user for an ad of this day.
    abbrev pub paid_for : Result (Text × VerifiedRewardCallback) → Result RewardOutcome → ℕ
    paid_for (ok (v, cb)) (ok o) = if o.granted && (v == u && reward_day c cb == day) then 1 else 0
    paid_for _ _ = 0

    unfoldable pub pays : AdCall → AdStore → ℕ
    pays (issue v token now) st = 0
    pays (deliver raw fresh now) st =
        paid_for (checked_callback c raw now st.contexts) (handle_callback c raw fresh now st).0

    -- How many of the calls paid this user for ads of this day.
    unfoldable pub grants : List AdCall → AdStore → ℕ
    grants [] st = 0
    grants (call ∷ calls) st = pays call st + grants calls (serve_ad call st)

    -- A call that paid had room and is counted; any other call lowers no counter.
    abbrev Counted : ℕ → ℕ → ℕ → Type 0
    Counted paid before after =
        ((paid ≡ 0) × (before ≤ after))
        ⊎ ((paid ≡ 1) × (before + 1 ≤ daily_reward_limit) × (after ≡ before + 1))

    outcome-state : (p : Result Applied × ShardStore) → (outcome (mutation p)).1 ≡ p.1
    outcome-state (ok r, s) = refl
    outcome-state (err e, s) = ground arith

    -- An answer that paid is one of a change that was applied.
    outcome-paid :
        (v : Text) (cb : VerifiedRewardCallback) (p : Result Applied × ShardStore)
        → (paid_for (ok (v, cb)) (outcome (mutation p)).0 ≡ 0)
          ⊎ ((paid_for (ok (v, cb)) (outcome (mutation p)).0 ≡ 1)
              × (v ≡ u)
              × (reward_day c cb ≡ day)
              × ((r : Applied) × (p.0 ≡ ok r) × (r.2 ≡ true)))
    outcome-paid v cb (err e, s) = inl (ground arith)
    outcome-paid v cb (ok (w, e, false), s) = inl refl
    outcome-paid v cb (ok (w, e, true), s) = elim (Bool-cases (v == u && reward_day c cb == day)) [
      | inr differs ↦ inl (ground arith)
      | inl agrees ↦ inr (
        ground arith,
        (text_eqb_iff v u).0 (ground arith),
        (text_eqb_iff (reward_day c cb) day).0 (ground arith),
        ((w, e, true), refl, refl),
      )
    ]

    grant-Counted :
        (v : Text) (cb : VerifiedRewardCallback) (fresh : Text) (now : ℕ) (s : ShardStore)
        → Counted
            (paid_for (ok (v, cb)) (grant c v cb fresh now s).0)
            (period_used c.sha256 s u rewarded_ad day)
            (period_used c.sha256 (grant c v cb fresh now s).1 u rewarded_ad day)
    unfolding period_used
    grant-Counted v cb fresh now s =
        let p = apply (ad_change v cb) fresh now s in
        let key = quota_key c.sha256 u rewarded_ad day in
        rw (grant-apply v cb fresh now s, outcome-state p)
          (elim (outcome-paid v cb p) [
            | inl unpaid ↦
                inl
                  (unpaid, apply-quota_used (ad_change v cb) fresh now s (day_quota v cb) key refl)
            | inr (paid, same, dated, (r, done, applied)) ↦
                let keys : (day_quota v cb).key ≡ key =
                  ap₂ (λ (a b : Text). quota_key c.sha256 a rewarded_ad b) same dated in
                let counted =
                  apply-counts (ad_change v cb) fresh now s (day_quota v cb) r refl done applied in
                inr (paid, rw (← keys) counted.0, rw (← keys) counted.1)
          ])

    serve_ad-Counted :
        (call : AdCall) (st : AdStore) → Counted (pays call st) (used st) (used (serve_ad call st))
    unfolding pays serve_ad issue_context handle_callback
    serve_ad-Counted (issue v token now) st = inl (refl, omega arith)
    serve_ad-Counted (deliver raw fresh now) st =
        elim (Result-cases (checked_callback c raw now st.contexts)) [
          | inr (x, e) ↦ rw e (inl (refl, omega arith))
          | inl ((v, cb), e) ↦ rw e (grant-Counted v cb fresh now st.shards)
        ]

    grants-room :
        (calls : List AdCall) (st : AdStore) → grants calls st ≤ daily_reward_limit - used st
    unfolding grants
    grants-room [] st = omega arith
    grants-room (call ∷ calls) st =
        ground (arith, serve_ad-Counted call st, grants-room calls (serve_ad call st))

-- In any sequence of calls from any state, whatever callbacks arrive, again or late, at most five of
-- them pay a user for ads of one date.
pub grants_capped :
    (c : RewardedAdService) (u day : Text) (calls : List AdCall) (st : AdStore)
    → grants c u day calls st ≤ daily_reward_limit
grants_capped c u day calls st = omega (arith, grants-room c u day calls st)
