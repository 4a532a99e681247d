-- ===== src/Marketplace/Unmoved.antt =====
-- The operations of app/marketplace/store.py that move no shards.
use ggumirror_be.Base.{ℕ, ◌≡◌, refl, inl, inr, if-all, Option-cases}
use ggumirror_be.Base.Text.{Text, text_eq, ◌==◌}
use ggumirror_be.Base.Dict.{get, contains}
use ggumirror_be.Base.Exec.{Result, Result-cases}
use ggumirror_be.Marketplace.Models.{
  Python, Listing, Snapshot, is_published, is_terminal, is_moderated, is_draft, like_id,
}
use ggumirror_be.Marketplace.Market.{
  Market, own_listing, get_published, any_listing, put_listing, release_title,
}
use ggumirror_be.Marketplace.Lifecycle.{
  DraftRequest, create_draft, checked_draft, create_snapshot, unpublish, delete,
}
use ggumirror_be.Marketplace.Likes.{
  LikeResult, like, unlike, add_like, remove_like, checked_like_count, is_zero,
}
use ggumirror_be.Marketplace.Moderation.{
  ModerationResult, restore, restore_listed, record_event, unblock_source,
}

module _ (py : Python) (m : Market) where
  pub create_snapshot-shards : (x : Snapshot) → (create_snapshot x m).1.shards ≡ m.shards
  unfolding create_snapshot
  create_snapshot-shards x =
      if-all (λ (out : Result Snapshot × Market). out.1.shards ≡ m.shards)
        (contains x.id m.snapshots) _ _ refl refl

  pub create_draft-shards :
      (fresh seller : Text) (r : DraftRequest) (now : ℕ)
      → (create_draft py fresh seller r now m).1.shards ≡ m.shards
  unfolding create_draft put_listing
  create_draft-shards fresh seller r now =
      elim (Result-cases (checked_draft py m fresh seller r now)) [
        | inl (l, e) ↦ rw e refl
        | inr (x, e) ↦ rw e refl
      ]

  pub unpublish-shards :
      (id seller : Text) (now : ℕ) → (unpublish py id seller now m).1.shards ≡ m.shards
  unfolding unpublish put_listing release_title
  unpublish-shards id seller now = elim (Result-cases (own_listing m id seller)) [
    | inr (x, e) ↦ rw e refl
    | inl (l, e) ↦ rw e (
        if-all (λ (out : Result Listing × Market). out.1.shards ≡ m.shards) (is_published l.status)
          _ _ refl refl)
  ]

  pub delete-shards : (id seller : Text) (now : ℕ) → (delete py id seller now m).1.shards ≡ m.shards
  unfolding delete put_listing release_title
  delete-shards id seller now = elim (Result-cases (own_listing m id seller)) [
    | inr (x, e) ↦ rw e refl
    | inl (l, e) ↦ rw e (
        if-all (λ (out : Result Listing × Market). out.1.shards ≡ m.shards) (is_terminal l.status) _
          _ refl refl)
  ]

  pub like-shards : (id user : Text) (now : ℕ) → (like py id user now m).1.shards ≡ m.shards
  unfolding like add_like
  like-shards id user now =
      let P = λ (out : Result LikeResult × Market). out.1.shards ≡ m.shards in
      elim (Result-cases (get_published m id)) [
        | inr (x, e) ↦ rw e refl
        | inl (l, e) ↦ rw e (
            if-all P (contains (like_id py user id) m.likes_by_id) _ _ refl (
              if-all P (l.seller_user_id == user) _ _ refl
                (elim (Result-cases (checked_like_count l)) [
                  | inr (x, negative) ↦ rw negative refl
                  | inl (n, counted) ↦ rw counted refl
                ])))
      ]

  pub unlike-shards : (id user : Text) → (unlike py id user m).1.shards ≡ m.shards
  unfolding unlike remove_like
  unlike-shards id user =
      let P = λ (out : Result LikeResult × Market). out.1.shards ≡ m.shards in
      elim (Option-cases (get id m.listings)) [
        | inl e ↦ rw e refl
        | inr (l, e) ↦ rw e (
            if-all P (is_draft l.status) _ _ refl (elim (Result-cases (checked_like_count l)) [
              | inr (x, negative) ↦ rw negative refl
              | inl (n, counted) ↦ rw counted (
                  if-all P (contains (like_id py user id) m.likes_by_id) _ _
                    (if-all P (is_zero n) _ _ refl refl) refl)
            ]))
      ]

  pub restore-shards :
      (fresh id actor : Text) (now : ℕ) → (restore py fresh id actor now m).1.shards ≡ m.shards
  unfolding restore restore_listed put_listing record_event unblock_source
  restore-shards fresh id actor now =
      let P = λ (out : Result ModerationResult × Market). out.1.shards ≡ m.shards in
      elim (Result-cases (any_listing m id)) [
        | inr (x, e) ↦ rw e refl
        | inl (l, e) ↦
            rw e
              (if-all P (is_terminal l.status) _ _ refl (if-all P (is_moderated l) _ _ refl refl))
      ]
