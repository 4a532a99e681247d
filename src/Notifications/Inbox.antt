-- ===== src/Notifications/Inbox.antt =====
-- The store of notifications keeps one event to an id (app/notifications/store.py), so a client that
-- follows the cursors misses nothing.
use mathlib.Core.List.{Perm}
use ggumirror_be.Base.{
  ℕ, ◌+◌, ◌≡◌, refl, ap, ◌∙◌, true, false, Option, none, some, List, [], ◌∷◌, arith, inl, inr,
  Bool-cases, if◌then◌else◌,
}
use ggumirror_be.Base.Text.{Text, text_eq, text_eqb_iff, ◌==◌}
use ggumirror_be.Base.Dict.{get, insert, values, get-insert}
use ggumirror_be.Marketplace.Models.{NotificationEvent}
use ggumirror_be.Notifications.{
  Events, newest_first, place, is_newer, create, mark_read, delete_for_user, read_found, create_or,
}
use ggumirror_be.Notifications.Order.{
  events_of, IsNewestFirst, newest_first-IsNewestFirst, newest_first-perm,
}
use ggumirror_be.Notifications.Pages.{IsDistinct, has_id, count, read_all, read_all-newest_first}

-- Each event stands under its own id, once.
unfoldable pub IsKeyed : Events → Type 0
IsKeyed [] = Unit {0}
IsKeyed ((k, x) ∷ d) = (x.id ≡ k) × (get k d ≡ none) × IsKeyed d

place-has_id :
    (c : Text) (x : NotificationEvent) (ys : List NotificationEvent)
    → has_id c (place x ys) ≡ (if x.id == c then true else has_id c ys)
unfolding place has_id
place-has_id c x [] = refl
place-has_id c x (y ∷ ys) = ground (arith, place-has_id c x ys)

newest_first-has_id :
    (c u : Text) (d : Events)
    → IsKeyed d
    → get c d ≡ none
    → has_id c (newest_first u (values d)) ≡ false
unfolding newest_first values has_id get IsKeyed
newest_first-has_id c u [] h k = refl
newest_first-has_id c u ((j, x) ∷ d) h k = ground (
  arith,
  place-has_id c x (newest_first u (values d)),
  newest_first-has_id c u d h.2,
  text_eqb_iff c j,
  text_eqb_iff x.id c,
)

first_apart :
    (x y : NotificationEvent) (ys : List NotificationEvent)
    → has_id x.id (y ∷ ys) ≡ false
    → ((x.id == y.id) ≡ false) × (has_id x.id ys ≡ false)
unfolding has_id
first_apart x y ys k =
    (ground (arith, text_eqb_iff x.id y.id, text_eqb_iff y.id x.id), ground arith)

place-IsDistinct :
    (x : NotificationEvent) (ys : List NotificationEvent)
    → IsDistinct ys
    → has_id x.id ys ≡ false
    → IsDistinct (place x ys)
unfolding place IsDistinct has_id
place-IsDistinct x [] h k = (refl, tt)
place-IsDistinct x (y ∷ ys) h k = elim (Bool-cases (is_newer y x)) [
  | inl newer ↦
      let apart = first_apart x y ys k in
      rw newer (ground (arith, place-has_id y.id x ys, apart), place-IsDistinct x ys h.1 apart.1)
  | inr older ↦ rw older (k, h)
]

newest_first-IsDistinct :
    (u : Text) (d : Events) → IsKeyed d → IsDistinct (newest_first u (values d))
unfolding newest_first values IsKeyed IsDistinct
newest_first-IsDistinct u [] h = tt
newest_first-IsDistinct u ((j, x) ∷ d) h = elim (Bool-cases (x.user_id == u)) [
  | inl own ↦
      let new : has_id x.id (newest_first u (values d)) ≡ false =
        newest_first-has_id x.id u d h.2 (ap (λ c. get c d) h.0 ∙ h.1) in
      rw own (place-IsDistinct x (newest_first u (values d)) (newest_first-IsDistinct u d h.2) new)
  | inr other ↦ rw other (newest_first-IsDistinct u d h.2)
]

insert-IsKeyed :
    (k : Text) (x : NotificationEvent) (d : Events) → x.id ≡ k → IsKeyed d → IsKeyed (insert k x d)
unfolding insert get IsKeyed
insert-IsKeyed k x [] e h = (e, refl, tt)
insert-IsKeyed k x ((j, y) ∷ d) e h = elim (Bool-cases (k == j)) [
  | inl same ↦ rw same (e ∙ (text_eqb_iff k j).0 same, h.1, h.2)
  | inr other ↦ rw other (
    h.0,
    ground (arith, get-insert j k x d, text_eqb_iff j k, text_eqb_iff k j, h.1),
    insert-IsKeyed k x d e h.2,
  )
]

delete_for_user-get :
    (k u : Text) (d : Events) → get k d ≡ none → get k (delete_for_user u d).1 ≡ none
unfolding get delete_for_user
delete_for_user-get k u [] h = refl
delete_for_user-get k u ((j, y) ∷ d) h = ground (arith, delete_for_user-get k u d)

delete_for_user-IsKeyed : (u : Text) (d : Events) → IsKeyed d → IsKeyed (delete_for_user u d).1
unfolding delete_for_user IsKeyed
delete_for_user-IsKeyed u [] h = tt
delete_for_user-IsKeyed u ((j, y) ∷ d) h = elim (Bool-cases (y.user_id == u)) [
  | inl gone ↦ rw gone (delete_for_user-IsKeyed u d h.2)
  | inr kept ↦ rw kept (h.0, delete_for_user-get j u d h.1, delete_for_user-IsKeyed u d h.2)
]

place-count :
    (x : NotificationEvent) (ys : List NotificationEvent) → count (place x ys) ≡ 1 + count ys
unfolding place count
place-count x [] = refl
place-count x (y ∷ ys) = ground (arith, place-count x ys)

newest_first-count :
    (u : Text) (xs : List NotificationEvent) → count (newest_first u xs) ≡ count (events_of u xs)
unfolding newest_first events_of count
newest_first-count u [] = refl
newest_first-count u (x ∷ xs) =
    ground (arith, place-count x (newest_first u xs), newest_first-count u xs)

-- A call that writes to the store.
pub data InboxCall : Type 0 where
  creates : NotificationEvent → InboxCall
  reads : Text → Text → ℕ → InboxCall
  deletes : Text → InboxCall

unfoldable pub run_inbox : InboxCall → Events → Events
run_inbox (creates x) d = (create x d).1
run_inbox (reads u id now) d = (mark_read u id now d).1
run_inbox (deletes u) d = (delete_for_user u d).1

unfoldable pub run_inboxes : List InboxCall → Events → Events
run_inboxes [] d = d
run_inboxes (call ∷ calls) d = run_inboxes calls (run_inbox call d)

get-id : (k : Text) (x : NotificationEvent) (d : Events) → IsKeyed d → get k d ≡ some x → x.id ≡ k
unfolding get IsKeyed
get-id k x [] h e = cc
get-id k x ((j, y) ∷ d) h e = elim (Bool-cases (k == j)) [
  | inl same ↦ ground (arith, h.0, text_eqb_iff k j)
  | inr other ↦ get-id k x d h.2 (ground arith)
]

create_or-IsKeyed :
    (r : Option NotificationEvent) (x : NotificationEvent) (d : Events)
    → IsKeyed d
    → IsKeyed (create_or r x d).1
create_or-IsKeyed none x d h = insert-IsKeyed x.id x d refl h
create_or-IsKeyed (some old) x d h = h

read_found-IsKeyed :
    (r : Option NotificationEvent) (u id : Text) (now : ℕ) (d : Events)
    → ((x : NotificationEvent) → r ≡ some x → x.id ≡ id)
    → IsKeyed d
    → IsKeyed (read_found r u id now d).1
read_found-IsKeyed none u id now d own h = h
read_found-IsKeyed (some x) u id now d own h =
    let updated : NotificationEvent = record x { read_at = some now } in
    ground (arith, h, insert-IsKeyed id updated d (own x refl) h)

run_inbox-IsKeyed : (call : InboxCall) (d : Events) → IsKeyed d → IsKeyed (run_inbox call d)
unfolding run_inbox create mark_read
run_inbox-IsKeyed (creates x) d h = create_or-IsKeyed (get x.id d) x d h
run_inbox-IsKeyed (reads u id now) d h =
    read_found-IsKeyed (get id d) u id now d (λ x e. get-id id x d h e) h
run_inbox-IsKeyed (deletes u) d h = delete_for_user-IsKeyed u d h

run_inboxes-IsKeyed :
    (calls : List InboxCall) (d : Events) → IsKeyed d → IsKeyed (run_inboxes calls d)
unfolding run_inboxes
run_inboxes-IsKeyed [] d h = h
run_inboxes-IsKeyed (call ∷ calls) d h =
    run_inboxes-IsKeyed calls (run_inbox call d) (run_inbox-IsKeyed call d h)

-- Whatever has been created, read and deleted in a store that began empty, a client that follows the
-- cursors from the first page, at whatever size of a page, has read after at most one request more
-- than the user has notifications: every stored event of the user and no other, each exactly once,
-- newest first.
pub inbox_read_all :
    (calls : List InboxCall) (u : Text) (limit : ℕ)
    → let d = run_inboxes calls [] in
      let own = events_of u (values d) in
      let answer = read_all (count own + 1) u none limit d in
      IsNewestFirst answer × IsDistinct answer × Perm answer own
unfolding IsKeyed
inbox_read_all calls u limit =
    let d = run_inboxes calls [] in
    let distinct = newest_first-IsDistinct u d (run_inboxes-IsKeyed calls [] tt) in
    rw (← newest_first-count u (values d)) (
      rw (read_all-newest_first u limit d distinct)
        (newest_first-IsNewestFirst u (values d), distinct, newest_first-perm u (values d)))
