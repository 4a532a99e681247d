-- ===== src/Shards/Store.antt =====
-- app/shards/store.py: the state of `InMemoryShardStore`, its reads and `apply`. The method runs
-- under a lock from beginning to end, so one call is one step.
use ggumirror_be.Base.{
  ℕ, ◌+◌, Bool, true, false, not, Option, none, some, List, [], ◌∷◌, ◌++◌, leb, if◌then◌else◌,
}
use ggumirror_be.Base.Int.{ℤ, pos, ◌+ℤ◌, neg, max_zero, ltb_ℤ}
use ggumirror_be.Base.Text.{Text, codes, text_eq, pair_eq}
use ggumirror_be.Base.Dict.{Dict, get, insert, contains}
use ggumirror_be.Base.Exec.{
  Result, ok, err, claim_owned_by_another, quota_exceeded, insufficient_shards,
}
use ggumirror_be.Shards.Models.{
  ShardReason, ShardWallet, empty_wallet, ShardLedgerEntry, text, Document, is_text, PeriodQuota,
  ExclusiveClaim, schema_version,
}

pub record ShardStore : Type 0 where
  pub wallets : Dict Text ShardWallet
  pub entries : List ShardLedgerEntry
  pub applied : Dict Text ShardLedgerEntry
  pub quotas : Dict Text ℕ
  pub claims : Dict (Text × Text) Document

abbrev pub empty_store : ShardStore
empty_store = record { wallets = []; entries = []; applied = []; quotas = []; claims = [] }

abbrev wallet_or : Option ShardWallet → ShardWallet → ShardWallet
wallet_or none w = w
wallet_or (some w) _ = w

unfoldable pub wallet : ShardStore → ℕ → Text → ShardWallet
wallet s now u = wallet_or (get u s.wallets) (empty_wallet u now)

unfoldable pub event_applied : ShardStore → Text → Bool
event_applied s key = contains key s.applied

abbrev count_or : Option ℕ → ℕ
count_or none = 0
count_or (some n) = n

unfoldable pub quota_used : ShardStore → Text → ℕ
quota_used s key = count_or (get key s.quotas)

-- `if existing := claims.get(…)`: an empty document counts as none.
abbrev owned_by_other : Option Document → Text → Text → Bool
owned_by_other none field u = false
owned_by_other (some []) field u = false
owned_by_other (some doc) field u = not (is_text (get field doc) u)

unfoldable pub claim_conflict : ShardStore → Text → Option ExclusiveClaim → Bool
claim_conflict s u none = false
claim_conflict s u (some c) = owned_by_other (get (c.collection, c.key) s.claims) c.owner_field u

unfoldable pub already_applied : ShardStore → Option Text → Option ShardLedgerEntry
already_applied s none = none
already_applied s (some key) = get key s.applied

unfoldable pub quota_full : ShardStore → Option PeriodQuota → Bool
quota_full s none = false
quota_full s (some q) = leb q.limit (quota_used s q.key)

abbrev mark_applied :
    Option Text → ShardLedgerEntry → Dict Text ShardLedgerEntry → Dict Text ShardLedgerEntry
mark_applied none e d = d
mark_applied (some key) e d = insert key e d

abbrev count_quota : ShardStore → Option PeriodQuota → Dict Text ℕ
count_quota s none = s.quotas
count_quota s (some q) = insert q.key (quota_used s q.key + 1) s.quotas

abbrev take_claim :
    Text
    → ShardLedgerEntry
    → Option ExclusiveClaim
    → Dict (Text × Text) Document
    → Dict (Text × Text) Document
take_claim u e none d = d
take_claim u e (some c) d =
    insert (c.collection, c.key)
      (insert (codes "ledgerEntryId") (text e.id) (insert c.owner_field (text u) c.document)) d

-- The entry and the wallet of an ordinary change; the refund totals are passed on.
unfoldable pub new_entry : Text → Text → ℤ → ℤ → ShardReason → Option Text → ℕ → ShardLedgerEntry
new_entry id u delta after reason key now = record {
  id = id;
  user_id = u;
  delta = delta;
  balance_after = after;
  reason = reason;
  idempotency_key_hash = key;
  created_at = now;
  version = schema_version;
}

unfoldable pub moved_wallet : ShardWallet → Text → ℤ → ℕ → ShardWallet
moved_wallet current u delta now = record {
  user_id = u;
  balance = current.balance +ℤ delta;
  lifetime_earned = current.lifetime_earned +ℤ max_zero delta;
  lifetime_spent = current.lifetime_spent +ℤ max_zero (neg delta);
  lifetime_refunded = current.lifetime_refunded;
  lifetime_refund_reversed = current.lifetime_refund_reversed;
  created_at = current.created_at;
  updated_at = now;
}

-- What a call of `apply` asks for. `fresh` is the id that `uuid4` makes for a new entry.
pub record Change : Type 0 where
  pub user_id : Text
  pub delta : ℤ
  pub reason : ShardReason
  pub key : Option Text
  pub quota : Option PeriodQuota
  pub claim : Option ExclusiveClaim

unfoldable pub changed_entry : ShardStore → Change → Text → ℕ → ShardLedgerEntry
changed_entry s c fresh now =
    new_entry fresh c.user_id c.delta ((wallet s now c.user_id).balance +ℤ c.delta) c.reason c.key
      now

unfoldable pub changed_wallet : ShardStore → Change → ℕ → ShardWallet
changed_wallet s c now = moved_wallet (wallet s now c.user_id) c.user_id c.delta now

-- The writes, once every check has passed.
unfoldable pub write_change : ShardStore → Change → Text → ℕ → ShardStore
write_change s c fresh now =
    let entry = changed_entry s c fresh now in
    record {
      wallets = insert c.user_id (changed_wallet s c now) s.wallets;
      entries = s.entries ++ entry ∷ [];
      applied = mark_applied c.key entry s.applied;
      quotas = count_quota s c.quota;
      claims = take_claim c.user_id entry c.claim s.claims;
    }

abbrev pub Applied : Type 0
Applied = ShardWallet × ShardLedgerEntry × Bool

unfoldable pub apply_new : Change → Text → ℕ → ShardStore → Result Applied × ShardStore
apply_new c fresh now s =
    if quota_full s c.quota
    then (err quota_exceeded, s)
    else if ltb_ℤ ((wallet s now c.user_id).balance +ℤ c.delta) (pos 0)
    then (err insufficient_shards, s)
    else (
      ok (changed_wallet s c now, changed_entry s c fresh now, true),
      write_change s c fresh now,
    )

abbrev replay_or :
    Option ShardLedgerEntry → Change → Text → ℕ → ShardStore → Result Applied × ShardStore
replay_or (some existing) c fresh now s = (ok (wallet s now existing.user_id, existing, false), s)
replay_or none c fresh now s = apply_new c fresh now s

unfoldable pub apply : Change → Text → ℕ → ShardStore → Result Applied × ShardStore
apply c fresh now s =
    if claim_conflict s c.user_id c.claim
    then (err claim_owned_by_another, s)
    else replay_or (already_applied s c.key) c fresh now s
