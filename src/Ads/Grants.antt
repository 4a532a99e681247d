-- ===== src/Ads/Grants.antt =====
-- What one callback pays (app/ads/service.py), and what its second delivery does.
use ggumirror_be.Base.{
  ℕ, ◌+◌, ◌≤◌, ◌≡◌, ◌≢◌, refl, ap, ◌∙◌, true, none, some, [], ◌∷◌, arith, if◌then◌else◌,
}
use ggumirror_be.Base.Int.{pos, ◌+ℤ◌, ◌≤ℤ◌, int_laws}
use ggumirror_be.Base.Text.{Text, text_eq, text_eqb_iff, ◌==◌}
use ggumirror_be.Base.Dict.{get, get-insert_self}
use ggumirror_be.Base.Exec.{Result, ok}
use ggumirror_be.Shards.Models.{rewarded_ad}
use ggumirror_be.Shards.Keys.{idempotency_hash}
use ggumirror_be.Shards.Store.{
  ShardStore, Applied, apply, apply_new, already_applied, claim_conflict, quota_full, quota_used,
  wallet, changed_wallet, changed_entry, moved_wallet, write_change,
}
use ggumirror_be.Shards.Service.{event_key, quota_key, period_used}
use ggumirror_be.Shards.Ledger.{
  IsSound, balance_of, balance_of-insert, wallet-balance, wallet-WalletOk,
}
use ggumirror_be.Shards.ApplyLaws.{apply-IsSound, apply_replayed, write_change-already}
use ggumirror_be.Ads.Models.{VerifiedRewardCallback, daily_reward_limit}
use ggumirror_be.Ads.Service.{
  RewardedAdService, AdStore, granted_outcome, duplicate_outcome, reward_day, grant,
  checked_callback, handle_callback,
}
use ggumirror_be.Ads.Quota.{ad_change, grant-apply, used}

module _ (c : RewardedAdService) (u : Text) (cb : VerifiedRewardCallback) where
  -- The key of the callback's event in the ledger.
  abbrev pub callback_key : Text
  callback_key = idempotency_hash c.sha256 u rewarded_ad cb.transaction_id

  event_key-callback :
      cb.transaction_id ≢ []
      → event_key c.sha256 u rewarded_ad (some cb.transaction_id) ≡ some callback_key
  event_key-callback = go cb.transaction_id
    where
      go :
          (t : Text)
          → t ≢ []
          → event_key c.sha256 u rewarded_ad (some t)
            ≡ some (idempotency_hash c.sha256 u rewarded_ad t)
      go [] h = absurd (h refl)
      go (b ∷ bs) h = refl

  -- Where the ledger has not seen the callback and the user's day has room.
  pub record IsPayable (s : ShardStore) : Type 0 where
    pub sound : IsSound s
    pub named : cb.transaction_id ≢ []
    pub new : get callback_key s.applied ≡ none
    pub room : period_used c.sha256 s u rewarded_ad (reward_day c cb) + 1 ≤ daily_reward_limit

  module _ (fresh : Text) (now : ℕ) where
    abbrev paid_store : ShardStore → ShardStore
    paid_store s = write_change s (ad_change c u cb) fresh now

    written :
        (s : ShardStore)
        → IsPayable s
        → apply (ad_change c u cb) fresh now s ≡ (
          ok (
            changed_wallet s (ad_change c u cb) now,
            changed_entry s (ad_change c u cb) fresh now,
            true,
          ),
          paid_store s,
        )
    unfolding apply apply_new already_applied claim_conflict quota_full period_used
    written s h =
        let fits : pos 0 ≤ℤ (wallet s now u).balance +ℤ pos 1 =
          omega (int_laws, (wallet-WalletOk s now u h.sound).nonneg) in
        let free : already_applied s (event_key c.sha256 u rewarded_ad (some cb.transaction_id))
            ≡ none =
          ap (already_applied s) (event_key-callback h.named) ∙ h.new in
        rw free (ground (arith, h.room))

    paid_store-balance :
        (s : ShardStore) (v : Text)
        → balance_of (paid_store s) v ≡ (if v == u then balance_of s u +ℤ pos 1 else balance_of s v)
    unfolding write_change changed_wallet moved_wallet
    paid_store-balance s v = ground (
      arith,
      balance_of-insert s (paid_store s) u v (changed_wallet s (ad_change c u cb) now) refl,
      wallet-balance s now u,
    )

    paid_store-used :
        (s : ShardStore)
        → period_used c.sha256 (paid_store s) u rewarded_ad (reward_day c cb)
          ≡ period_used c.sha256 s u rewarded_ad (reward_day c cb) + 1
    unfolding period_used write_change quota_used
    paid_store-used s =
        let key = quota_key c.sha256 u rewarded_ad (reward_day c cb) in
        ground (arith, get-insert_self key (quota_used s key + 1) s.quotas)

    paid_store-IsSound : (s : ShardStore) → IsPayable s → IsSound (paid_store s)
    paid_store-IsSound s h =
        rw (← ap (λ (p : Result Applied × ShardStore). p.1) (written s h))
          (apply-IsSound (ad_change c u cb) fresh now s h.sound)

    repeated :
        (s : ShardStore) (fresh' : Text) (later : ℕ)
        → IsPayable s
        → grant c u cb fresh' later (paid_store s) ≡ (ok duplicate_outcome, paid_store s)
    repeated s fresh' later h =
        let key = event_key-callback h.named in
        let known =
          ap (already_applied (paid_store s)) key
          ∙ write_change-already (ad_change c u cb) fresh callback_key now s key in
        rw
          (
            grant-apply c u cb fresh' later (paid_store s),
            apply_replayed (ad_change c u cb) fresh' later (paid_store s)
                (changed_entry s (ad_change c u cb) fresh now) refl known,
          )
          refl

-- Where a callback is checked and resolved to a user, the ledger's books balance and have not seen
-- it, and the user's day has had fewer than five: one shard is paid into that user's wallet and
-- into no other, it is counted for the day of the signed time, and the contexts stay.
pub callback_pays :
    (c : RewardedAdService) (u : Text) (cb : VerifiedRewardCallback) (raw fresh : Text) (now : ℕ)
    (st : AdStore)
    → checked_callback c raw now st.contexts ≡ ok (u, cb)
    → IsPayable c u cb st.shards
    → let (r, st') = handle_callback c raw fresh now st in
      (r ≡ ok granted_outcome)
      × (balance_of st'.shards u ≡ balance_of st.shards u +ℤ pos 1)
      × ((v : Text) → v ≢ u → balance_of st'.shards v ≡ balance_of st.shards v)
      × (used c u (reward_day c cb) st' ≡ used c u (reward_day c cb) st + 1)
      × (st'.contexts ≡ st.contexts)
      × IsSound st'.shards
unfolding handle_callback
callback_pays c u cb raw fresh now st resolved h =
    let s = st.shards in
    rw (resolved, grant-apply c u cb fresh now s, written c u cb fresh now s h)
      (
        refl,
        ground (arith, paid_store-balance c u cb fresh now s u, text_eqb_iff u u),
        (λ v ne. ground (arith, paid_store-balance c u cb fresh now s v, text_eqb_iff v u)),
        paid_store-used c u cb fresh now s,
        refl,
        paid_store-IsSound c u cb fresh now s h,
      )

-- After a callback that was checked, resolved and paid as the ledger's books balanced, had not seen it
-- and had room for the day: delivered again while its context is still valid, it is answered as a
-- duplicate and changes nothing, also where the day has had its five.
pub callback_again :
    (c : RewardedAdService) (u : Text) (cb : VerifiedRewardCallback) (raw fresh fresh' : Text)
    (now later : ℕ) (st : AdStore)
    → checked_callback c raw now st.contexts ≡ ok (u, cb)
    → checked_callback c raw later st.contexts ≡ ok (u, cb)
    → IsPayable c u cb st.shards
    → let st' = (handle_callback c raw fresh now st).1 in
      handle_callback c raw fresh' later st' ≡ (ok duplicate_outcome, st')
unfolding handle_callback
callback_again c u cb raw fresh fresh' now later st resolved again h =
    rw
      (
        resolved,
        grant-apply c u cb fresh now st.shards,
        written c u cb fresh now st.shards h,
        again,
        repeated c u cb fresh now st.shards fresh' later h,
      )
      refl
