-- ===== src/Marketplace/Owned.antt =====
-- What is owned stays owned under the operations of app/marketplace/store.py that sell nothing.
use ggumirror_be.Base.{ℕ, ◌≡◌, some, inl, inr, if-all, Option-cases}
use ggumirror_be.Base.Text.{Text, text_eq, ◌==◌}
use ggumirror_be.Base.Dict.{get, contains}
use ggumirror_be.Base.Exec.{Result, Result-cases}
use ggumirror_be.Marketplace.Models.{
  Python, Listing, Ownership, Snapshot, is_published, is_terminal, is_moderated, is_draft, like_id,
}
use ggumirror_be.Marketplace.Market.{
  Market, own_listing, get_published, any_listing, put_listing, release_title,
}
use ggumirror_be.Marketplace.Lifecycle.{
  DraftRequest, create_draft, checked_draft, create_snapshot, unpublish, delete,
}
use ggumirror_be.Marketplace.Likes.{
  LikeResult, like, unlike, add_like, remove_like, checked_like_count, is_zero,
}
use ggumirror_be.Marketplace.Moderation.{
  ModerationResult, restore, restore_listed, record_event, unblock_source,
}

-- An ownership is on record under a key.
abbrev pub Owned : Text → Ownership → Market → Type 0
Owned k own m = get k m.ownership_records ≡ some own

module _ (py : Python) (m : Market) (k : Text) (own : Ownership) (h : Owned k own m) where
  pub create_snapshot-Owned : (x : Snapshot) → Owned k own (create_snapshot x m).1
  unfolding create_snapshot
  create_snapshot-Owned x =
      if-all (λ (out : Result Snapshot × Market). Owned k own out.1) (contains x.id m.snapshots) _ _
        h h

  pub create_draft-Owned :
      (fresh seller : Text) (r : DraftRequest) (now : ℕ)
      → Owned k own (create_draft py fresh seller r now m).1
  unfolding create_draft put_listing
  create_draft-Owned fresh seller r now =
      elim (Result-cases (checked_draft py m fresh seller r now)) [
        | inl (l, e) ↦ rw e h
        | inr (x, e) ↦ rw e h
      ]

  pub unpublish-Owned : (id seller : Text) (now : ℕ) → Owned k own (unpublish py id seller now m).1
  unfolding unpublish put_listing release_title
  unpublish-Owned id seller now = elim (Result-cases (own_listing m id seller)) [
    | inr (x, e) ↦ rw e h
    | inl (l, e) ↦ rw e (
        if-all (λ (out : Result Listing × Market). Owned k own out.1) (is_published l.status) _ _ h
          h)
  ]

  pub delete-Owned : (id seller : Text) (now : ℕ) → Owned k own (delete py id seller now m).1
  unfolding delete put_listing release_title
  delete-Owned id seller now = elim (Result-cases (own_listing m id seller)) [
    | inr (x, e) ↦ rw e h
    | inl (l, e) ↦ rw e (
        if-all (λ (out : Result Listing × Market). Owned k own out.1) (is_terminal l.status) _ _ h
          h)
  ]

  pub like-Owned : (id user : Text) (now : ℕ) → Owned k own (like py id user now m).1
  unfolding like add_like
  like-Owned id user now =
      let P = λ (out : Result LikeResult × Market). Owned k own out.1 in
      elim (Result-cases (get_published m id)) [
        | inr (x, e) ↦ rw e h
        | inl (l, e) ↦ rw e (
            if-all P (contains (like_id py user id) m.likes_by_id) _ _ h (
              if-all P (l.seller_user_id == user) _ _ h
                (elim (Result-cases (checked_like_count l)) [
                  | inr (x, negative) ↦ rw negative h
                  | inl (n, counted) ↦ rw counted h
                ])))
      ]

  pub unlike-Owned : (id user : Text) → Owned k own (unlike py id user m).1
  unfolding unlike remove_like
  unlike-Owned id user =
      let P = λ (out : Result LikeResult × Market). Owned k own out.1 in
      elim (Option-cases (get id m.listings)) [
        | inl e ↦ rw e h
        | inr (l, e) ↦ rw e (
            if-all P (is_draft l.status) _ _ h (elim (Result-cases (checked_like_count l)) [
              | inr (x, negative) ↦ rw negative h
              | inl (n, counted) ↦ rw counted (
                  if-all P (contains (like_id py user id) m.likes_by_id) _ _
                    (if-all P (is_zero n) _ _ h h) h)
            ]))
      ]

  pub restore-Owned :
      (fresh id actor : Text) (now : ℕ) → Owned k own (restore py fresh id actor now m).1
  unfolding restore restore_listed put_listing record_event unblock_source
  restore-Owned fresh id actor now =
      let P = λ (out : Result ModerationResult × Market). Owned k own out.1 in
      elim (Result-cases (any_listing m id)) [
        | inr (x, e) ↦ rw e h
        | inl (l, e) ↦
            rw e (if-all P (is_terminal l.status) _ _ h (if-all P (is_moderated l) _ _ h h))
      ]
