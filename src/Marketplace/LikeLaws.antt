-- ===== src/Marketplace/LikeLaws.antt =====
-- The relation and the count of a like (app/marketplace/store.py, `like` and `unlike`).
use ggumirror_be.Base.{ℕ, ◌≡◌, refl, ◌≢◌, ap, true, false, some, none, arith}
use ggumirror_be.Base.Int.{pos, ◌+ℤ◌, ◌-ℤ◌, ◌≤ℤ◌, ltb_ℤ, int_laws, +ℤ_parts}
use ggumirror_be.Base.Text.{Text, text_eq, text_eqb_iff, ◌==◌}
use ggumirror_be.Base.Dict.{get, insert, get-insert_self, erase-insert, insert-insert, contains}
use ggumirror_be.Base.Exec.{Result, ok}
use ggumirror_be.Marketplace.Models.{Python, Listing, Like, like_id, is_draft}
use ggumirror_be.Marketplace.Market.{Market, get_published, is_public}
use ggumirror_be.Marketplace.Likes.{
  LikeResult, like, unlike, checked_like_count, with_like_count, add_like, remove_like, is_zero,
}
use ggumirror_be.Marketplace.TitleSteps.{get_published-found}

module _ (py : Python) (id user : Text) (now : ℕ) (m : Market) (l : Listing) where
  -- A public listing of another seller that the user has not liked, with a count in order.
  pub record CanLike : Type 0 where
    pub listed : get_published m id ≡ ok l
    pub other : l.seller_user_id ≢ user
    pub unliked : get (like_id py user id) m.likes_by_id ≡ none
    pub counted : pos 0 ≤ℤ l.like_count

  abbrev pub liked : Like
  liked = record { id = like_id py user id; user_id = user; listing_id = id; created_at = now }

  abbrev pub after_like : Market
  after_like = record m {
    likes_by_id = insert (like_id py user id) liked m.likes_by_id;
    listings = insert id (with_like_count l (l.like_count +ℤ pos 1)) m.listings;
  }

  module _ (h : CanLike) where
    like_made : like py id user now m ≡ (
      ok (record {
        listing_id = id;
        liked = true;
        changed = true;
        like_count = l.like_count +ℤ pos 1;
      }),
      after_like,
    )
    unfolding like checked_like_count add_like
    like_made =
        let another : (l.seller_user_id == user) ≡ false =
          ground (arith, text_eqb_iff l.seller_user_id user, h.other) in
        let nonneg : ltb_ℤ l.like_count (pos 0) ≡ false = ground (arith, h.counted) in
        let missing : contains (like_id py user id) m.likes_by_id ≡ false =
          rw (h.unliked, contains) refl in
        rw (h.listed, missing, another, nonneg) refl

    public_like : is_public l ≡ true
    unfolding get_published
    public_like = let found = get_published-found m id l h.listed in ground (arith, h.listed, found)

    not_draft : is_draft l.status ≡ false
    unfolding is_public
    not_draft = ground (arith, public_like)

    unlike_made : unlike py id user after_like ≡ (
      ok (record {
        listing_id = id;
        liked = false;
        changed = true;
        like_count = l.like_count +ℤ pos 1 -ℤ pos 1;
      }),
      m,
    )
    unfolding unlike checked_like_count remove_like with_like_count
    unlike_made =
        let key = like_id py user id in
        let counted = with_like_count l (l.like_count +ℤ pos 1) in
        let found : get id after_like.listings ≡ some counted =
          get-insert_self id counted m.listings in
        let relation : contains key after_like.likes_by_id ≡ true =
          rw (get-insert_self key liked m.likes_by_id, contains) refl in
        let nonneg : ltb_ℤ (l.like_count +ℤ pos 1) (pos 0) ≡ false =
          ground (arith, h.counted, +ℤ_parts l.like_count (pos 1)) in
        let positive : is_zero (l.like_count +ℤ pos 1) ≡ false =
          ground (arith, h.counted, +ℤ_parts l.like_count (pos 1)) in
        let back : l.like_count +ℤ pos 1 -ℤ pos 1 ≡ l.like_count = omega int_laws in
        rw
          (
            found,
            not_draft,
            nonneg,
            relation,
            positive,
            back,
            erase-insert key liked m.likes_by_id h.unliked,
            insert-insert id counted l m.listings (get_published-found m id l h.listed),
          )
          refl

-- A like of a public listing by another user who has not liked it, whose count is not negative,
-- adds the relation and one to the count; taking it back at once restores the whole store,
-- relations, counts and order.
pub unlike-like :
    (py : Python) (id user : Text) (now : ℕ) (m : Market) (l : Listing)
    → CanLike py id user now m l
    → let (r, m') = like py id user now m in
      (r
        ≡ ok (record {
          listing_id = id;
          liked = true;
          changed = true;
          like_count = l.like_count +ℤ pos 1;
        }))
      × (get (like_id py user id) m'.likes_by_id ≡ some (liked py id user now m l))
      × (get id m'.listings ≡ some (with_like_count l (l.like_count +ℤ pos 1)))
      × ((unlike py id user m').1 ≡ m)
unlike-like py id user now m l h = rw (like_made py id user now m l h) (
  refl,
  get-insert_self (like_id py user id) (liked py id user now m l) m.likes_by_id,
  get-insert_self id (with_like_count l (l.like_count +ℤ pos 1)) m.listings,
  ap (λ (out : Result LikeResult × Market). out.1) (unlike_made py id user now m l h),
)

-- A like that is already there succeeds, tells the count, and changes nothing.
pub like_again :
    (py : Python) (id user : Text) (now : ℕ) (m : Market) (l : Listing)
    → get_published m id ≡ ok l
    → pos 0 ≤ℤ l.like_count
    → contains (like_id py user id) m.likes_by_id ≡ true
    → like py id user now m ≡ (
      ok (record { listing_id = id; liked = true; changed = false; like_count = l.like_count }),
      m,
    )
unfolding like checked_like_count
like_again py id user now m l listed counted have =
    let nonneg : ltb_ℤ l.like_count (pos 0) ≡ false = ground arith in rw (listed, have, nonneg) refl
