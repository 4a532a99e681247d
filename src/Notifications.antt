-- ===== src/Notifications.antt =====
-- The in-memory store of app/notifications/store.py and the reads of app/notifications/service.py;
-- the record of a notification stands with the marketplace, which creates most of them.
pub mod Order
pub mod Pages
pub mod Inbox
mod Tests
use ggumirror_be.Base.{
  ℕ, zero, suc, ◌+◌, Bool, true, false, ◌&&◌, ◌||◌, not, Option, none, some, List, [], ◌∷◌, ltb,
  nat_eqb, if◌then◌else◌,
}
use ggumirror_be.Base.Text.{Text, text_eq, ◌==◌}
use ggumirror_be.Base.Dict.{Dict, get, insert, values}
use ggumirror_be.Base.Exec.{Result, ok, err, notification_not_found}
use ggumirror_be.Marketplace.Models.{NotificationEvent}

abbrev pub Events : Type 0
Events = Dict Text NotificationEvent

abbrev pub page_size : ℕ
page_size = 25

abbrev pub max_page : ℕ
max_page = 50

-- `<` of two texts, which is that of their bytes.
unfoldable pub text_ltb : Text → Text → Bool
text_ltb [] [] = false
text_ltb [] (b ∷ t) = true
text_ltb (a ∷ s) [] = false
text_ltb (a ∷ s) (b ∷ t) = ltb a b || nat_eqb a b && text_ltb s t

-- The order of the sort's key, `(created_at, id)`.
unfoldable pub is_newer : NotificationEvent → NotificationEvent → Bool
is_newer x y =
    ltb y.created_at x.created_at || nat_eqb y.created_at x.created_at && text_ltb y.id x.id

unfoldable pub place : NotificationEvent → List NotificationEvent → List NotificationEvent
place x [] = x ∷ []
place x (y ∷ ys) = let rest = place x ys in if is_newer y x then y ∷ rest else x ∷ y ∷ ys

-- `sorted(…, reverse=True)` of a user's events.
unfoldable pub newest_first : Text → List NotificationEvent → List NotificationEvent
newest_first u [] = []
newest_first u (x ∷ xs) =
    let rest = newest_first u xs in if x.user_id == u then place x rest else rest

-- `ordered[ids.index(cursor) + 1:]`, or nothing where the cursor is not there
unfoldable pub after_cursor : Text → List NotificationEvent → List NotificationEvent
after_cursor c [] = []
after_cursor c (x ∷ xs) = let rest = after_cursor c xs in if x.id == c then xs else rest

-- The first of a list, at most `limit`.
unfoldable pub first_of : ℕ → List NotificationEvent → List NotificationEvent
first_of zero xs = []
first_of (suc n) [] = []
first_of (suc n) (x ∷ xs) = x ∷ first_of n xs

-- `page[-1].id if page and len(ordered) > limit`
unfoldable pub next_cursor : ℕ → List NotificationEvent → Option Text
next_cursor zero xs = none
next_cursor (suc n) [] = none
next_cursor (suc n) (x ∷ []) = none
next_cursor (suc zero) (x ∷ y ∷ ys) = some x.id
next_cursor (suc (suc n)) (x ∷ y ∷ ys) = next_cursor (suc n) (y ∷ ys)

abbrev pub from_cursor : Option Text → List NotificationEvent → List NotificationEvent
from_cursor none xs = xs
from_cursor (some c) xs = after_cursor c xs

-- `page` of the store
unfoldable pub page : Text → Option Text → ℕ → Events → List NotificationEvent × Option Text
page u cursor limit d =
    let ordered = from_cursor cursor (newest_first u (values d)) in
    (first_of limit ordered, next_cursor limit ordered)

-- `max(1, min(limit, MAX_PAGE))`
unfoldable pub page_limit : ℕ → ℕ
page_limit limit = if ltb limit 1 then 1 else if ltb max_page limit then max_page else limit

-- `page` of the service
unfoldable pub service_page : Text → Option Text → ℕ → Events → List NotificationEvent × Option Text
service_page u cursor limit d = page u cursor (page_limit limit) d

abbrev is_read : NotificationEvent → Bool
is_read x = elim x.read_at [ none ↦ false | some _ ↦ true ]

abbrev pub create_or :
    Option NotificationEvent → NotificationEvent → Events → NotificationEvent × Events
create_or (some old) x d = (old, d)
create_or none x d = (x, insert x.id x d)

-- `create`: an id is written once.
unfoldable pub create : NotificationEvent → Events → NotificationEvent × Events
create x d = create_or (get x.id d) x d

abbrev pub read_found :
    Option NotificationEvent → Text → Text → ℕ → Events → Result NotificationEvent × Events
read_found none u id now d = (err notification_not_found, d)
read_found (some x) u id now d =
    if not (x.user_id == u)
    then (err notification_not_found, d)
    else if is_read x
    then (ok x, d)
    else let updated : NotificationEvent = record x { read_at = some now } in
      (ok updated, insert id updated d)

unfoldable pub mark_read : Text → Text → ℕ → Events → Result NotificationEvent × Events
mark_read u id now d = read_found (get id d) u id now d

unfoldable pub delete_for_user : Text → Events → ℕ × Events
delete_for_user u [] = (0, [])
delete_for_user u ((id, x) ∷ d) =
    let (n, rest) = delete_for_user u d in
    if x.user_id == u then (n + 1, rest) else (n, (id, x) ∷ rest)
