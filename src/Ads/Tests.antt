-- ===== src/Ads/Tests.antt =====
-- The theorems on the rewarded ads at a concrete service and its callback.
use ggumirror_be.Base.{◌+◌, ◌≤◌, ◌≡◌, ◌≢◌, refl, List, [], ◌∷◌, arith}
use ggumirror_be.Base.Int.{pos, ◌+ℤ◌}
use ggumirror_be.Base.Text.{Text, codes, text_eqb, text_eq}
use ggumirror_be.Base.Dict.{get, insert}
use ggumirror_be.Base.Exec.{ok}
use ggumirror_be.Shards.Store.{empty_store, quota_used}
use ggumirror_be.Shards.Service.{period_used}
use ggumirror_be.Shards.Ledger.{IsSound, balance_of}
use ggumirror_be.Shards.Tests.{plain, alice, empty_store-IsSound}
use ggumirror_be.Ads.Models.{VerifiedRewardCallback, is_valid, new_context, save, context}
use ggumirror_be.Ads.Service.{
  RewardedAdService, AdStore, is_configured, check_product, resolve_user, checked_callback,
  issue_context, handle_callback, granted_outcome, reward_day,
}
use ggumirror_be.Ads.Quota.{AdCall, issue, deliver, grants, used, grants_capped}
use ggumirror_be.Ads.Grants.{IsPayable, callback_pays}

abbrev seen : VerifiedRewardCallback
seen = record {
  transaction_id = codes "t1";
  ad_unit = codes "unit";
  reward_amount = pos 1;
  reward_item = codes "shard";
  timestamp = 90;
  custom_data = codes "token";
}

abbrev ads : RewardedAdService
ads = record {
  config = record { ad_unit = codes "unit"; reward_item = codes "shard"; reward_amount = pos 1 };
  verify = λ raw. ok seen;
  sha256 = plain;
  date_text = λ day. codes "2026-01-01";
}

-- Alice has asked for a context.
abbrev opened : AdStore
opened = record {
  contexts =
      (
        codes "token",
        record {
          token_hash = codes "token";
          user_id = alice;
          expires_at = 21_610;
          created_at = 10;
        },
      )
      ∷ [];
  shards = empty_store;
}

opened-issue_context :
    issue_context ads alice (codes "token") 10 (record { contexts = []; shards = empty_store })
    ≡ opened
unfolding issue_context save new_context insert
opened-issue_context = refl

opened-callback : checked_callback ads (codes "query") 100 opened.contexts ≡ ok (alice, seen)
unfolding checked_callback check_product is_configured resolve_user context is_valid get text_eqb
opened-callback = refl

opened-callback_later : checked_callback ads (codes "query") 200 opened.contexts ≡ ok (alice, seen)
unfolding checked_callback check_product is_configured resolve_user context is_valid get text_eqb
opened-callback_later = refl

seen-IsPayable : IsPayable ads alice seen empty_store
unfolding get period_used quota_used
seen-IsPayable = record {
  sound = empty_store-IsSound;
  named = λ e. cc;
  new = refl;
  room = omega arith;
}

callback_pays_example :
    let (r, st') = handle_callback ads (codes "query") (codes "e1") 100 opened in
    (r ≡ ok granted_outcome)
    × (balance_of st'.shards alice ≡ balance_of empty_store alice +ℤ pos 1)
    × ((v : Text) → v ≢ alice → balance_of st'.shards v ≡ balance_of empty_store v)
    × (used ads alice (reward_day ads seen) st' ≡ used ads alice (reward_day ads seen) opened + 1)
    × (st'.contexts ≡ opened.contexts)
    × IsSound st'.shards
callback_pays_example =
    callback_pays ads alice seen (codes "query") (codes "e1") 100 opened opened-callback
      seen-IsPayable

abbrev ad_calls : List AdCall
ad_calls =
    issue alice (codes "token") 10
    ∷ deliver (codes "query") (codes "e1") 100
    ∷ deliver (codes "query") (codes "e2") 200
    ∷ []

grants_capped_example : grants ads alice (codes "2026-01-01") ad_calls opened ≤ 5
grants_capped_example = grants_capped ads alice (codes "2026-01-01") ad_calls opened
