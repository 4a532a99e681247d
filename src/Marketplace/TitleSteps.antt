-- ===== src/Marketplace/TitleSteps.antt =====
-- The titles under the operations of app/marketplace/store.py: `create`, `create_snapshot`, `publish`,
-- `unpublish` and `delete`.
use ggumirror_be.Base.{
  ℕ, ◌≡◌, refl, ◌≢◌, ap, sym, ◌∙◌, Bool, false, inl, inr, some, List, [], ◌∷◌, arith, Bool-cases,
  Option-cases, if-all,
}
use mathlib.Core.Bool.{true≢false}
use ggumirror_be.Base.Int.{ℤ}
use ggumirror_be.Base.Text.{Text, text_eq, text_eqb_iff, ◌==◌}
use ggumirror_be.Base.Dict.{get, insert, get-insert, get-insert_self, contains}
use ggumirror_be.Base.Exec.{Error, bind-all, Result, ok, err, Result-cases}
use ggumirror_be.Marketplace.Models.{
  Python, Listing, Snapshot, is_published, is_terminal, listing_title_key, normalized_title,
  normalized_description, checked_price,
}
use ggumirror_be.Marketplace.Market.{
  Market, own_snapshot, own_listing, get_published, any_listing, put_listing, is_public, put_shards,
}
use ggumirror_be.Marketplace.Publish.{
  publish_checks, publish_commit, published_listing, write_listing, claim_title, taken_by_other,
  is_blocked,
}
use ggumirror_be.Marketplace.Lifecycle.{
  DraftRequest, content_type_of, create_draft, checked_draft, created, create_snapshot, draft_of,
  unpublish, unlisted_listing, delete, deleted_listing,
}
use ggumirror_be.Marketplace.Titles.{IsTitled, rewrite-IsTitled, withdrawn-IsTitled}
use ggumirror_be.Marketplace.Settling.{market_commit-all}
use ggumirror_be.Shards.Store.{ShardStore}
use ggumirror_be.Transaction.{Write, run_writes}
use ggumirror_be.Transaction.Total.{AllTotal}

pub own_listing-found :
    (m : Market) (id seller : Text) (l : Listing)
    → own_listing m id seller ≡ ok l
    → get id m.listings ≡ some l
unfolding own_listing
own_listing-found m id seller l = elim (Option-cases (get id m.listings)) [
  | inl e ↦ rw e (λ h. ground arith)
  | inr (x, e) ↦ elim (Bool-cases (x.seller_user_id == seller)) [
    | inl own ↦ rw (e, own) (λ h. cc)
    | inr other ↦ rw (e, other) (λ h. ground arith)
  ]
]

pub get_published-found :
    (m : Market) (id : Text) (l : Listing) → get_published m id ≡ ok l → get id m.listings ≡ some l
unfolding get_published
get_published-found m id l = elim (Option-cases (get id m.listings)) [
  | inl e ↦ rw e (λ h. ground arith)
  | inr (x, e) ↦ elim (Bool-cases (is_public x)) [
    | inl own ↦ rw (e, own) (λ h. cc)
    | inr other ↦ rw (e, other) (λ h. ground arith)
  ]
]

pub any_listing-found :
    (m : Market) (id : Text) (l : Listing) → any_listing m id ≡ ok l → get id m.listings ≡ some l
unfolding any_listing
any_listing-found m id l = elim (Option-cases (get id m.listings)) [
  | inl e ↦ rw e (λ h. ground arith)
  | inr (x, e) ↦ rw e (λ h. cc)
]

module _ (py : Python) (m : Market) (h : IsTitled py m) where
  pub create_draft-IsTitled :
      (fresh seller : Text) (r : DraftRequest) (now : ℕ)
      → IsTitled py (create_draft py fresh seller r now m).1
  unfolding create_draft checked_draft put_listing draft_of
  create_draft-IsTitled fresh seller r now =
      let P = λ (out : Result Listing). IsTitled py (created m out).1 in
      let raised : (e : Error) → P (err e) = λ e. h in
      bind-all P raised (content_type_of r.content_type) _ λ kind.
        bind-all P raised (own_snapshot m r.snapshot_id seller) _ λ x.
          bind-all P raised (normalized_title py r.title) _ λ title.
            bind-all P raised (normalized_description py r.description) _ λ description.
              bind-all P raised (checked_price r.price_shards) _ λ price.
                rewrite-IsTitled py m _ fresh
                  (draft_of fresh seller r kind title description price now) h refl refl
                  (λ p. absurd (true≢false (sym p))) (λ j t other g. g)

  pub create_snapshot-IsTitled : (x : Snapshot) → IsTitled py (create_snapshot x m).1
  unfolding create_snapshot
  create_snapshot-IsTitled x =
      if-all (λ (out : Result Snapshot × Market). IsTitled py out.1) (contains x.id m.snapshots) _ _
        h (record { named = h.named; holds = h.holds })

  pub unpublish-IsTitled :
      (id seller : Text) (now : ℕ) → IsTitled py (unpublish py id seller now m).1
  unfolding unpublish unlisted_listing
  unpublish-IsTitled id seller now = elim (Result-cases (own_listing m id seller)) [
    | inr (x, e) ↦ rw e h
    | inl (l, e) ↦ rw e (
        if-all (λ (out : Result Listing × Market). IsTitled py out.1) (is_published l.status) _ _
          (withdrawn-IsTitled py m _ id l (unlisted_listing l now) h
            (own_listing-found m id seller l e) refl refl refl)
          h)
  ]

  pub delete-IsTitled : (id seller : Text) (now : ℕ) → IsTitled py (delete py id seller now m).1
  unfolding delete deleted_listing
  delete-IsTitled id seller now = elim (Result-cases (own_listing m id seller)) [
    | inr (x, e) ↦ rw e h
    | inl (l, e) ↦ rw e (
        if-all (λ (out : Result Listing × Market). IsTitled py out.1) (is_terminal l.status) _ _ h
          (withdrawn-IsTitled py m _ id l (deleted_listing l now) h
            (own_listing-found m id seller l e) refl refl refl))
  ]

  publish_checks-untaken :
      (l : Listing)
      → publish_checks py m l ≡ ok tt
      → taken_by_other l.id (get (listing_title_key py l.title) m.title_claims) ≡ false
  unfolding publish_checks
  publish_checks-untaken l = elim (Result-cases (own_snapshot m l.snapshot_id l.seller_user_id)) [
    | inr (x, e) ↦ rw e (λ passed. ground arith)
    | inl (x, e) ↦ elim (Bool-cases (is_blocked py m l x)) [
      | inl held ↦ rw (e, held) (λ passed. ground arith)
      | inr free ↦
          elim (Bool-cases
            (taken_by_other l.id (get (listing_title_key py l.title) m.title_claims))) [
              | inl taken ↦ rw (e, free, taken) (λ passed. ground arith)
              | inr untaken ↦ λ passed. untaken
            ]
    ]
  ]

  -- The title that a publication claims is free, or is the listing's own.
  publish_checks-free :
      (l : Listing) (j t : Text)
      → publish_checks py m l ≡ ok tt
      → j ≢ l.id
      → get t m.title_claims ≡ some j
      → (t == listing_title_key py l.title) ≡ false
  publish_checks-free l j t passed other g = ground (
    arith,
    publish_checks-untaken l passed,
    text_eqb_iff t (listing_title_key py l.title),
    text_eqb_iff j l.id,
  )

  pub publish_commit-IsTitled :
      (l : Listing) (id : Text) (shard_writes : List (Write ShardStore)) (balance : ℤ)
      (charged : Bool) (now : ℕ)
      → AllTotal shard_writes
      → get id m.listings ≡ some l
      → publish_checks py m l ≡ ok tt
      → IsTitled py (publish_commit py m l shard_writes balance charged now).1
  unfolding publish_commit run_writes write_listing claim_title put_shards published_listing
  publish_commit-IsTitled l id shard_writes balance charged now total found passed =
      let key = listing_title_key py l.title in
      let same : l.id ≡ id = h.named id l found in
      market_commit-all (λ out. IsTitled py out.1) shard_writes
        (write_listing (published_listing l now) ∷ claim_title key l.id ∷ []) m total
        (λ s undos.
          rewrite-IsTitled py m _ id (published_listing l now) h
            (ap (λ (k : Text). insert k (published_listing l now) m.listings) same) same
            (λ p. get-insert_self key l.id m.title_claims ∙ ap some same)
            (λ j t other g.
              get-insert t key l.id m.title_claims
              ∙ rw (publish_checks-free l j t passed (rw same other) g) g))
