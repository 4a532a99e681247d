-- ===== src/Marketplace/Publish.antt =====
-- app/marketplace/store.py, `publish`: the first publication charges the fee, takes the title and
-- changes the listing in one commit; a later one is free.
use ggumirror_be.Base.{
  ℕ, Bool, true, false, not, ◌&&◌, Option, none, some, List, [], ◌∷◌, if◌then◌else◌,
}
use ggumirror_be.Base.Int.{ℤ, pos, neg}
use ggumirror_be.Base.Text.{Text, text_eq, ◌==◌}
use ggumirror_be.Base.Dict.{Dict, get, insert, erase, contains}
use ggumirror_be.Base.Exec.{
  Result, ok, err, ◌>>=◌, ◌>>◌, raise_if, invalid_transition, moderated_listing, title_taken,
}
use ggumirror_be.Marketplace.Models.{
  Python, Listing, Snapshot, published, is_terminal, is_published, is_moderated, fee, fee_reason,
  content_value, listing_title_key, moderation_block_id,
}
use ggumirror_be.Marketplace.Market.{Market, own_listing, own_snapshot, market_transaction}
use ggumirror_be.Shards.Store.{ShardStore, wallet}
use ggumirror_be.Shards.Scoped.{Staged, context}
use ggumirror_be.Shards.Service.{scoped_change}
use ggumirror_be.Transaction.{Write, done, commit}

pub record PublishResult : Type 0 where
  pub listing : Listing
  pub published : Bool
  pub fee_charged : Bool
  pub fee_shards : ℕ
  pub balance : ℤ

abbrev pub first_time : Option ℕ → ℕ → Option ℕ
first_time none now = some now
first_time (some t) now = some t

unfoldable pub published_listing : Listing → ℕ → Listing
published_listing l now = record l {
  status = published;
  publish_fee_paid = true;
  updated_at = now;
  published_at = first_time l.published_at now;
}

abbrev pub restore_key : {V : Type 0} → Text → Option V → Dict Text V → Dict Text V
restore_key k none d = d
restore_key k (some v) d = insert k v d

-- `write_listing` and `claim_title`, with their undos.
unfoldable pub write_listing : Listing → Write Market
write_listing l m =
    done (record m { listings = insert l.id l m.listings })
      (λ m'. record m' { listings = restore_key l.id (get l.id m.listings) m'.listings })

unfoldable pub claim_title : Text → Text → Write Market
claim_title key id m =
    done (record m { title_claims = insert key id m.title_claims })
      (λ m'. record m' { title_claims = erase key m'.title_claims })

abbrev pub taken_by_other : Text → Option Text → Bool
taken_by_other id none = false
taken_by_other id (some owner) = not (owner == id)

abbrev nonempty_text : Text → Bool
nonempty_text [] = false
nonempty_text (b ∷ t) = true

-- What a settled commit answers.
abbrev pub settled : {A : Type 0} → A → Result (Unit {0}) → Result A
settled a (ok _) = ok a
settled a (err e) = err e

module _ (py : Python) where
  unfoldable pub is_blocked : Market → Listing → Snapshot → Bool
  is_blocked m l x =
      nonempty_text x.source_content_id
      && contains
          (moderation_block_id py l.seller_user_id (content_value l.content_type)
            x.source_content_id)
          m.moderation_blocks

  -- The checks before the transaction: the content is there, is not blocked, and the title is free.
  unfoldable pub publish_checks : Market → Listing → Result (Unit {0})
  publish_checks m l = do
    x ← own_snapshot m l.snapshot_id l.seller_user_id
    raise_if (is_blocked m l x) moderated_listing
    raise_if (taken_by_other l.id (get (listing_title_key py l.title) m.title_claims)) title_taken
    ok tt

  unfoldable pub publish_commit :
      Market → Listing → List (Write ShardStore) → ℤ → Bool → ℕ → Result PublishResult × Market
  publish_commit m l shard_writes balance charged now =
      let l' = published_listing l now in
      let (r, _, m') =
        commit
          (market_transaction shard_writes
            (write_listing l' ∷ claim_title (listing_title_key py l.title) l.id ∷ []))
          m in
      (
        settled
            (record {
              listing = l';
              published = true;
              fee_charged = charged;
              fee_shards = fee l.content_type;
              balance = balance;
            })
            r,
        m',
      )

  abbrev pub publish_charged : Market → Listing → ℕ → Result Staged → Result PublishResult × Market
  publish_charged m l now (err e) = (err e, m)
  publish_charged m l now (ok st) =
      publish_commit m l st.context.transaction.writes st.wallet.balance st.applied now

  -- The fee is charged once in a listing's life.
  unfoldable pub publish_charge : Market → Listing → ℕ → Result PublishResult × Market
  publish_charge m l now =
      if l.publish_fee_paid
      then publish_commit m l [] (wallet m.shards now l.seller_user_id).balance false now
      else publish_charged m l now (
          scoped_change py.sha256 m.shards context l.seller_user_id (neg (pos (fee l.content_type)))
            (fee_reason l.content_type) l.id now)

  abbrev pub publish_checked :
      Market → Listing → ℕ → Result (Unit {0}) → Result PublishResult × Market
  publish_checked m l now (err e) = (err e, m)
  publish_checked m l now (ok _) = publish_charge m l now

  unfoldable pub publish_own : Market → Listing → ℕ → Result PublishResult × Market
  publish_own m l now =
      if is_terminal l.status
      then (err invalid_transition, m)
      else if is_moderated l
      then (err moderated_listing, m)
      else if is_published l.status
      then (
        ok (record {
          listing = l;
          published = false;
          fee_charged = false;
          fee_shards = fee l.content_type;
          balance = (wallet m.shards now l.seller_user_id).balance;
        }),
        m,
      )
      else publish_checked m l now (publish_checks m l)

  abbrev pub publish_found : Market → ℕ → Result Listing → Result PublishResult × Market
  publish_found m now (err e) = (err e, m)
  publish_found m now (ok l) = publish_own m l now

  unfoldable pub publish : Text → Text → ℕ → Market → Result PublishResult × Market
  publish id seller now m = publish_found m now (own_listing m id seller)
