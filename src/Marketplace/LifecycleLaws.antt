-- ===== src/Marketplace/LifecycleLaws.antt =====
-- The store after a deletion (app/marketplace/store.py, `delete`).
use ggumirror_be.Base.{ℕ, ◌≡◌, refl, ap, ◌∙◌, true, false, some, arith}
use ggumirror_be.Base.Text.{Text, text_eq, text_eqb_iff, ◌==◌}
use ggumirror_be.Base.Dict.{get, insert, get-insert_self}
use ggumirror_be.Base.Exec.{ok, err, invalid_transition, terminal_listing, listing_not_found}
use ggumirror_be.Marketplace.Models.{Python, Listing, is_terminal}
use ggumirror_be.Marketplace.Market.{
  Market, own_listing, get_published, put_listing, release_title, is_public,
}
use ggumirror_be.Marketplace.Publish.{publish, publish_own}
use ggumirror_be.Marketplace.Acquire.{acquire}
use ggumirror_be.Marketplace.Lifecycle.{unpublish, delete, deleted_listing}
use ggumirror_be.Marketplace.Moderation.{restore}
use ggumirror_be.Marketplace.ModerationLaws.{restore_deleted}

module _ (py : Python) (id : Text) (now : ℕ) (m : Market) (l : Listing)
    (found : get id m.listings ≡ some l) (same : l.id ≡ id)
    (live : is_terminal l.status ≡ false) where
  abbrev gone : Listing
  gone = deleted_listing l now

  abbrev after_delete : Market
  after_delete = release_title py l (put_listing gone m)

  own : (l.seller_user_id == l.seller_user_id) ≡ true
  own = ground (arith, text_eqb_iff l.seller_user_id l.seller_user_id)

  deletes : delete py id l.seller_user_id now m ≡ (ok gone, after_delete)
  unfolding delete own_listing
  deletes = rw (found, own, live) refl

  found_gone : get id after_delete.listings ≡ some gone
  unfolding release_title put_listing deleted_listing
  found_gone =
      ap (λ (k : Text). get id (insert k gone m.listings)) same ∙ get-insert_self id gone m.listings

  hidden : is_public gone ≡ false
  unfolding is_public deleted_listing
  hidden = ground arith

  -- After its seller has deleted a listing, at any later time and for whoever asks: the seller does
  -- not publish it, an operator does not bring it back, it is not sold, and a second deletion or an
  -- unpublication by the seller changes nothing.
  pub delete_is_final :
      (later : ℕ) (fresh actor buyer : Text)
      → let m' = (delete py id l.seller_user_id now m).1 in
        (publish py id l.seller_user_id later m' ≡ (err invalid_transition, m'))
        × (restore py fresh id actor later m' ≡ (err terminal_listing, m'))
        × (acquire py id buyer later m' ≡ (err listing_not_found, m'))
        × ((delete py id l.seller_user_id later m').1 ≡ m')
        × ((unpublish py id l.seller_user_id later m').1 ≡ m')
  unfolding publish publish_own own_listing acquire get_published is_public delete unpublish
      deleted_listing
  delete_is_final later fresh actor buyer = rw deletes (
    rw (found_gone, own) refl,
    restore_deleted py fresh id actor later after_delete gone found_gone refl,
    rw (found_gone, hidden) refl,
    rw (found_gone, own) refl,
    rw (found_gone, own) refl,
  )
