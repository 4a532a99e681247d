-- ===== src/Marketplace/Likes.antt =====
-- app/marketplace/store.py, `like` and `unlike`: the relation is the authority, and the listing's
-- count is written with it.
use ggumirror_be.Base.{ℕ, Bool, true, false, Option, none, some, if◌then◌else◌}
use ggumirror_be.Base.Int.{ℤ, pos, ◌+ℤ◌, ◌-ℤ◌, ltb_ℤ}
use ggumirror_be.Base.Text.{Text, text_eq, ◌==◌}
use ggumirror_be.Base.Dict.{get, insert, erase, contains}
use ggumirror_be.Base.Exec.{Result, ok, err, listing_not_found, self_like, like_count_inconsistent}
use ggumirror_be.Marketplace.Models.{Python, Listing, is_draft, like_id}
use ggumirror_be.Marketplace.Market.{Market, get_published}

pub record LikeResult : Type 0 where
  pub listing_id : Text
  pub liked : Bool
  pub changed : Bool
  pub like_count : ℤ

-- `_checked_like_count`
unfoldable pub checked_like_count : Listing → Result ℤ
checked_like_count l =
    if ltb_ℤ l.like_count (pos 0) then err like_count_inconsistent else ok l.like_count

-- `_with_like_count`
unfoldable pub with_like_count : Listing → ℤ → Listing
with_like_count l count = record l { like_count = count }

unfoldable pub add_like : Text → Text → Text → Listing → ℤ → ℕ → Market → Market
add_like key user id l count now m = record m {
  likes_by_id =
      insert key (record { id = key; user_id = user; listing_id = id; created_at = now })
        m.likes_by_id;
  listings = insert id (with_like_count l count) m.listings;
}

unfoldable pub remove_like : Text → Text → Listing → ℤ → Market → Market
remove_like key id l count m = record m {
  likes_by_id = erase key m.likes_by_id;
  listings = insert id (with_like_count l count) m.listings;
}

abbrev pub like_answer : Text → Bool → Bool → Result ℤ → Result LikeResult
like_answer id liked changed (err e) = err e
like_answer id liked changed (ok n) =
    ok (record { listing_id = id; liked = liked; changed = changed; like_count = n })

abbrev pub like_counted :
    Text → Text → Text → Listing → ℕ → Market → Result ℤ → Result LikeResult × Market
like_counted key id user l now m (err e) = (err e, m)
like_counted key id user l now m (ok n) =
    (like_answer id true true (ok (n +ℤ pos 1)), add_like key user id l (n +ℤ pos 1) now m)

abbrev pub like_public :
    Python → Text → Text → ℕ → Market → Result Listing → Result LikeResult × Market
like_public py id user now m (err e) = (err e, m)
like_public py id user now m (ok l) =
    if contains (like_id py user id) m.likes_by_id
    then (like_answer id true false (checked_like_count l), m)
    else if l.seller_user_id == user
    then (err self_like, m)
    else like_counted (like_id py user id) id user l now m (checked_like_count l)

unfoldable pub like : Python → Text → Text → ℕ → Market → Result LikeResult × Market
like py id user now m = like_public py id user now m (get_published m id)

abbrev pub is_zero : ℤ → Bool
is_zero n = if ltb_ℤ n (pos 0) then false else if ltb_ℤ (pos 0) n then false else true

abbrev pub unlike_counted :
    Python → Text → Text → Listing → Market → Result ℤ → Result LikeResult × Market
unlike_counted py id user l m (err e) = (err e, m)
unlike_counted py id user l m (ok n) =
    if contains (like_id py user id) m.likes_by_id
    then (if is_zero n then (err like_count_inconsistent, m) else (
      like_answer id false true (ok (n -ℤ pos 1)),
      remove_like (like_id py user id) id l (n -ℤ pos 1) m,
    ))
    else (like_answer id false false (ok n), m)

abbrev pub unlike_found :
    Python → Text → Text → Market → Option Listing → Result LikeResult × Market
unlike_found py id user m none = (err listing_not_found, m)
unlike_found py id user m (some l) =
    if is_draft l.status
    then (err listing_not_found, m)
    else unlike_counted py id user l m (checked_like_count l)

unfoldable pub unlike : Python → Text → Text → Market → Result LikeResult × Market
unlike py id user m = unlike_found py id user m (get id m.listings)
