-- ===== src/Marketplace/Moderation.antt =====
-- app/marketplace/store.py, `takedown` and `restore`: an operator takes a listing out of the store
-- or puts it back, with the block of its source, the record, the seller's notification and, once
-- in a listing's life, the compensation.
use ggumirror_be.Base.{ℕ, Bool, true, false, Option, none, some, [], ◌∷◌, ◌++◌, if◌then◌else◌}
use ggumirror_be.Base.Int.{pos}
use ggumirror_be.Base.Text.{Text, text_eq, ◌==◌}
use ggumirror_be.Base.Dict.{Dict, get, insert, erase}
use ggumirror_be.Base.Exec.{Result, ok, err, terminal_listing, not_moderated}
use ggumirror_be.Marketplace.Models.{
  Python, Listing, Snapshot, is_moderated, is_terminal, active, removed, ModerationReason,
  ModerationAction, takedown_action, restore_action, NotificationEvent, marketplace_takedown,
  content_value, moderation_compensation, moderation_block_id, takedown_event_id,
}
use ggumirror_be.Marketplace.Market.{Market, any_listing, put_listing, market_transaction}
use ggumirror_be.Marketplace.Publish.{settled}
use ggumirror_be.Marketplace.Acquire.{notify}
use ggumirror_be.Shards.Models.{marketplace_moderation_compensation}
use ggumirror_be.Shards.Scoped.{Staged, context}
use ggumirror_be.Shards.Service.{scoped_change}
use ggumirror_be.Transaction.{commit}

pub record ModerationResult : Type 0 where
  pub listing : Listing
  pub changed : Bool
  pub compensation : ℕ

unfoldable pub removed_listing : Listing → ModerationReason → Text → ℕ → Listing
removed_listing l reason actor now = record l {
  moderation_status = removed;
  moderation_reason = some reason;
  moderated_at = some now;
  moderated_by = some actor;
  updated_at = now;
}

unfoldable pub restored_listing : Listing → Text → ℕ → Listing
restored_listing l actor now = record l {
  moderation_status = active;
  moderation_reason = none;
  moderated_at = some now;
  moderated_by = some actor;
  updated_at = now;
}

-- `_record`
unfoldable pub record_event :
    Text → Listing → ModerationAction → Text → Option ModerationReason → Text → ℕ → Market → Market
record_event fresh l action actor reason note now m = record m {
  moderation_event_log =
      m.moderation_event_log
      ++ record {
        id = fresh;
        listing_id = l.id;
        content_type = l.content_type;
        action = action;
        actor_user_id = actor;
        reason = reason;
        note = note;
        created_at = now;
      }
        ∷ [];
}

-- `_takedown_event`
unfoldable pub takedown_event : Python → Listing → ModerationReason → ℕ → ℕ → NotificationEvent
takedown_event py l reason paid now = record {
  id = takedown_event_id py l.id;
  user_id = l.seller_user_id;
  kind = marketplace_takedown;
  listing_id = l.id;
  content_type = content_value l.content_type;
  title_snapshot = l.title;
  shard_amount = pos 0;
  takedown_reason = some reason;
  takedown_paid = pos paid;
  created_at = now;
  read_at = none;
}

abbrev source_key : Python → Listing → Option Snapshot → Option Text
source_key py l none = none
source_key py l (some x) = elim x.source_content_id [
  | [] ↦ none
  | b ∷ t ↦ some (moderation_block_id py l.seller_user_id (content_value l.content_type) (b ∷ t))
]

-- The key that stands for the source of a listing's content, where it is known.
unfoldable pub block_key : Python → Market → Listing → Option Text
block_key py m l = source_key py l (get l.snapshot_id m.snapshots)

abbrev blocked : Option Text → Text → Dict Text Text → Dict Text Text
blocked none id d = d
blocked (some key) id d = insert key id d

abbrev unblocked_by : Text → Text → Option Text → Dict Text Text → Dict Text Text
unblocked_by key id none d = d
unblocked_by key id (some owner) d = if owner == id then erase key d else d

abbrev unblocked : Option Text → Text → Dict Text Text → Dict Text Text
unblocked none id d = d
unblocked (some key) id d = unblocked_by key id (get key d) d

-- `_block_source` and `_unblock_source`; a block that another listing made stays.
unfoldable pub block_source : Python → Listing → Market → Market
block_source py l m = record m {
  moderation_blocks = blocked (block_key py m l) l.id m.moderation_blocks;
}

unfoldable pub unblock_source : Python → Listing → Market → Market
unblock_source py l m = record m {
  moderation_blocks = unblocked (block_key py m l) l.id m.moderation_blocks;
}

-- The writes of `takedown` between the opening of the transaction and its commit.
unfoldable pub write_takedown :
    Python → Text → Listing → Text → ModerationReason → Text → ℕ → ℕ → Market → Market
write_takedown py fresh l actor reason note paid now m =
    let m' =
      record_event fresh l takedown_action actor (some reason) note now
        (block_source py l (put_listing l m)) in
    record m' { notifications = notify (takedown_event py l reason paid now) m'.notifications }

module _ (py : Python) where
  abbrev paid_if : Bool → ℕ
  paid_if applied = if applied then moderation_compensation else 0

  abbrev pub takedown_paid_for :
      Text
      → Listing
      → Text
      → ModerationReason
      → Text
      → ℕ
      → Market
      → Result Staged
      → Result ModerationResult × Market
  takedown_paid_for fresh l actor reason note now m (err e) = (err e, m)
  takedown_paid_for fresh l actor reason note now m (ok st) =
      let l' = removed_listing l reason actor now in
      let paid = paid_if st.applied in
      let (r, _, m') =
        commit (market_transaction st.context.transaction.writes [])
          (write_takedown py fresh l' actor reason note paid now m) in
      (settled (record { listing = l'; changed = true; compensation = paid }) r, m')

  -- `_compensate`, keyed by the listing alone.
  unfoldable pub takedown_listed :
      Text
      → Listing
      → Text
      → ModerationReason
      → Text
      → ℕ
      → Market
      → Result ModerationResult × Market
  takedown_listed fresh l actor reason note now m =
      takedown_paid_for fresh l actor reason note now m (
        scoped_change py.sha256 m.shards context l.seller_user_id (pos moderation_compensation)
          marketplace_moderation_compensation l.id now)

  abbrev pub takedown_found :
      Text
      → Text
      → ModerationReason
      → Text
      → ℕ
      → Market
      → Result Listing
      → Result ModerationResult × Market
  takedown_found fresh actor reason note now m (err e) = (err e, m)
  takedown_found fresh actor reason note now m (ok l) =
      if is_moderated l
      then (ok (record { listing = l; changed = false; compensation = 0 }), m)
      else takedown_listed fresh l actor reason note now m

  unfoldable pub takedown :
      Text → Text → Text → ModerationReason → Text → ℕ → Market → Result ModerationResult × Market
  takedown fresh id actor reason note now m =
      takedown_found fresh actor reason note now m (any_listing m id)

  unfoldable pub restore_listed :
      Text → Listing → Text → ℕ → Market → Result ModerationResult × Market
  restore_listed fresh l actor now m =
      let l' = restored_listing l actor now in
      (
        ok (record { listing = l'; changed = true; compensation = 0 }),
        record_event fresh l' restore_action actor none [] now
            (unblock_source py l' (put_listing l' m)),
      )

  abbrev pub restore_found :
      Text → Text → ℕ → Market → Result Listing → Result ModerationResult × Market
  restore_found fresh actor now m (err e) = (err e, m)
  restore_found fresh actor now m (ok l) =
      if is_terminal l.status
      then (err terminal_listing, m)
      else if is_moderated l
      then restore_listed fresh l actor now m
      else (err not_moderated, m)

  unfoldable pub restore : Text → Text → Text → ℕ → Market → Result ModerationResult × Market
  restore fresh id actor now m = restore_found fresh actor now m (any_listing m id)
