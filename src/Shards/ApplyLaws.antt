-- ===== src/Shards/ApplyLaws.antt =====
-- The behaviour of `InMemoryShardStore.apply` (app/shards/store.py) on every branch.
use ggumirror_be.Base.{
  ℕ, ◌+◌, ◌≤◌, ◌≡◌, refl, ◌≢◌, ◌⊎◌, inl, inr, true, false, none, some, arith, inl, inr, ap, ap₂,
  ◌∙◌,
}
use ggumirror_be.Base.Int.{ℤ, pos, ◌+ℤ◌, ◌≤ℤ◌, int_laws, parts_of_eq}
use ggumirror_be.Base.Text.{Text, text_eq, pair_eq, text_eqb_iff}
use ggumirror_be.Base.Dict.{get-insert, get-insert_self}
use ggumirror_be.Base.Exec.{Error, ok, err, is_ok, insufficient_shards}
use ggumirror_be.Shards.Models.{ShardWallet, ShardLedgerEntry, PeriodQuota}
use ggumirror_be.Shards.Store.{
  ShardStore, wallet, Change, apply, apply_new, write_change, changed_wallet, changed_entry,
  new_entry, moved_wallet, already_applied, claim_conflict, quota_full, quota_used,
}
use ggumirror_be.Shards.Ledger.{
  WalletOk, IsSound, wallet-balance, wallet-WalletOk, Posted, Posted-IsSound,
}

-- A call leaves the store alone, or it writes one change that does not overdraw.
pub apply-state :
    (c : Change) (fresh : Text) (now : ℕ) (s : ShardStore)
    → ((apply c fresh now s).1 ≡ s)
      ⊎ (((apply c fresh now s).1 ≡ write_change s c fresh now)
          × (pos 0 ≤ℤ (wallet s now c.user_id).balance +ℤ c.delta)
          × (already_applied s c.key ≡ none)
          × (quota_full s c.quota ≡ false))
unfolding apply apply_new
apply-state c fresh now s = ground arith

pub moved-WalletOk :
    (u : Text) (w : ShardWallet) (delta : ℤ) (now : ℕ)
    → WalletOk u w
    → pos 0 ≤ℤ w.balance +ℤ delta
    → WalletOk u (moved_wallet w u delta now)
unfolding moved_wallet
moved-WalletOk u w delta now h p = record {
  owner = refl;
  nonneg = p;
  earned = omega (int_laws, h.earned);
  spent = omega (int_laws, h.spent);
  refunded = h.refunded;
  returned = h.returned;
  explained = omega (int_laws, parts_of_eq _ _ h.explained);
}

write_change-Posted :
    (c : Change) (fresh : Text) (now : ℕ) (s : ShardStore)
    → IsSound s
    → pos 0 ≤ℤ (wallet s now c.user_id).balance +ℤ c.delta
    → Posted s
        (write_change s c fresh now)
        c.user_id
        (changed_wallet s c now)
        (changed_entry s c fresh now)
unfolding write_change changed_wallet changed_entry new_entry moved_wallet
write_change-Posted c fresh now s h p = record {
  wallets = refl;
  entries = refl;
  user = refl;
  moved = ap (λ (b : ℤ). b +ℤ c.delta) (wallet-balance s now c.user_id);
  in_order =
      moved-WalletOk c.user_id (wallet s now c.user_id) c.delta now
        (wallet-WalletOk s now c.user_id h) p;
}

-- Where the books balance, they balance after a call of `apply`, whatever it answers: no balance is
-- negative, each wallet's totals explain its balance, and each balance is the sum of that user's
-- ledger lines.
pub apply-IsSound :
    (c : Change) (fresh : Text) (now : ℕ) (s : ShardStore)
    → IsSound s
    → IsSound (apply c fresh now s).1
apply-IsSound c fresh now s h = elim (apply-state c fresh now s) [
  | inl same ↦ rw same h
  | inr (written, fits, _, _) ↦
      rw written (Posted-IsSound s _ c.user_id _ _ (write_change-Posted c fresh now s h fits) h)
]

-- A call that raises leaves the store as it was.
pub apply_atomic :
    (c : Change) (fresh : Text) (now : ℕ) (s : ShardStore) (e : Error)
    → (apply c fresh now s).0 ≡ err e
    → (apply c fresh now s).1 ≡ s
unfolding apply apply_new
apply_atomic c fresh now s e h = ground arith

pub apply_replayed :
    (d : Change) (fresh : Text) (now : ℕ) (s : ShardStore) (e : ShardLedgerEntry)
    → d.claim ≡ none
    → already_applied s d.key ≡ some e
    → apply d fresh now s ≡ (ok (wallet s now e.user_id, e, false), s)
unfolding apply claim_conflict
apply_replayed d fresh now s e p q = ground arith

apply_written :
    (c : Change) (fresh : Text) (now : ℕ) (s : ShardStore)
    → already_applied s c.key ≡ none
    → is_ok (apply c fresh now s).0 ≡ true
    → (apply c fresh now s).1 ≡ write_change s c fresh now
unfolding apply apply_new
apply_written c fresh now s p q = ground arith

pub write_change-already :
    (c : Change) (fresh key : Text) (now : ℕ) (s : ShardStore)
    → c.key ≡ some key
    → already_applied (write_change s c fresh now) (some key) ≡ some (changed_entry s c fresh now)
unfolding write_change already_applied
write_change-already c fresh key now s p =
    ground (arith, get-insert_self key (changed_entry s c fresh now) s.applied)

-- After a call that newly wrote under a key, any later call under that key that carries no
-- exclusive claim applies nothing and changes nothing, whatever amount, reason or quota it carries:
-- it answers the first call's entry.
pub apply_once :
    (c d : Change) (key fresh fresh' : Text) (now later : ℕ) (s : ShardStore)
    → c.key ≡ some key
    → d.key ≡ some key
    → d.claim ≡ none
    → already_applied s (some key) ≡ none
    → is_ok (apply c fresh now s).0 ≡ true
    → let s' = (apply c fresh now s).1 in
      apply d fresh' later s'
      ≡ (ok (wallet s' later c.user_id, changed_entry s c fresh now, false), s')
apply_once c d key fresh fresh' now later s p q r new done =
    let s' = (apply c fresh now s).1 in
    let written : s' ≡ write_change s c fresh now =
      apply_written c fresh now s (ap (already_applied s) p ∙ new) done in
    let found : already_applied s' d.key ≡ some (changed_entry s c fresh now) =
      ap₂ already_applied written q ∙ write_change-already c fresh key now s p in
    apply_replayed d fresh' later s' (changed_entry s c fresh now) r found
    ∙ unfold changed_entry new_entry in refl

-- One user's call leaves every other user's wallet as it was, at whatever time it is read.
pub apply_others :
    (c : Change) (fresh : Text) (now later : ℕ) (s : ShardStore) (v : Text)
    → v ≢ c.user_id
    → wallet (apply c fresh now s).1 later v ≡ wallet s later v
unfolding wallet write_change
apply_others c fresh now later s v ne = ground (
  arith,
  apply-state c fresh now s,
  get-insert v c.user_id (changed_wallet s c now) s.wallets,
  text_eqb_iff v c.user_id,
)

-- A call never brings a period's counter past the limit that it carries, where the counter was not
-- past it before.
pub apply-quota-le :
    (c : Change) (fresh : Text) (now : ℕ) (s : ShardStore) (q : PeriodQuota)
    → c.quota ≡ some q
    → quota_used s q.key ≤ q.limit
    → quota_used (apply c fresh now s).1 q.key ≤ q.limit
unfolding quota_full write_change quota_used
apply-quota-le c fresh now s q e h =
    ground
      (arith, apply-state c fresh now s, get-insert_self q.key (quota_used s q.key + 1) s.quotas)

-- A change with no quota and no claim that is new and does not overdraw is written.
pub apply_fresh :
    (c : Change) (fresh : Text) (now : ℕ) (s : ShardStore)
    → c.quota ≡ none
    → c.claim ≡ none
    → already_applied s c.key ≡ none
    → pos 0 ≤ℤ (wallet s now c.user_id).balance +ℤ c.delta
    → apply c fresh now s
      ≡ (ok (changed_wallet s c now, changed_entry s c fresh now, true), write_change s c fresh now)
unfolding apply apply_new claim_conflict quota_full
apply_fresh c fresh now s q p new fits = ground arith

-- A change that would overdraw raises, if nothing else stops it.
pub apply_overdraft :
    (c : Change) (fresh : Text) (now : ℕ) (s : ShardStore)
    → c.quota ≡ none
    → c.claim ≡ none
    → already_applied s c.key ≡ none
    → ¬ (pos 0 ≤ℤ (wallet s now c.user_id).balance +ℤ c.delta)
    → apply c fresh now s ≡ (err insufficient_shards, s)
unfolding apply apply_new claim_conflict quota_full
apply_overdraft c fresh now s q p new short = ground arith
