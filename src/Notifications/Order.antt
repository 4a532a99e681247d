-- ===== src/Notifications/Order.antt =====
-- What the sort of app/notifications/store.py does, said without the sort: a user's events and no
-- others, each as often as it is stored, and newest first.
use mathlib.Core.List.{Perm}
use mathlib.Core.List.Perm
use ggumirror_be.Base.{
  ◌<◌, ◌≡◌, ◌⊎◌, refl, true, false, List, [], ◌∷◌, arith, inl, inr, Bool-cases, if◌then◌else◌,
}
use ggumirror_be.Base.Text.{Text, text_eq, ◌==◌}
use ggumirror_be.Marketplace.Models.{NotificationEvent}
use ggumirror_be.Notifications.{text_ltb, is_newer, place, newest_first}

-- The events of one user, in the order in which they are stored.
unfoldable pub events_of : Text → List NotificationEvent → List NotificationEvent
events_of u [] = []
events_of u (x ∷ xs) = let rest = events_of u xs in if x.user_id == u then x ∷ rest else rest

-- The first is the newer one; of two of one time, it is the one whose id is not the smaller.
abbrev pub IsNoOlder : NotificationEvent → NotificationEvent → Type 0
IsNoOlder x y =
    (y.created_at < x.created_at) ⊎ ((y.created_at ≡ x.created_at) × (text_ltb x.id y.id ≡ false))

-- Each event is no older than the next.
unfoldable pub IsNewestFirst : List NotificationEvent → Type 0
IsNewestFirst [] = Unit {0}
IsNewestFirst (x ∷ []) = Unit {0}
IsNewestFirst (x ∷ y ∷ ys) = IsNoOlder x y × IsNewestFirst (y ∷ ys)

text_ltb_asymm : (s t : Text) → text_ltb s t ≡ true → text_ltb t s ≡ false
unfolding text_ltb
text_ltb_asymm [] [] h = cc
text_ltb_asymm [] (b ∷ t) h = refl
text_ltb_asymm (a ∷ s) [] h = cc
text_ltb_asymm (a ∷ s) (b ∷ t) h = ground (arith, text_ltb_asymm s t)

newer-IsNoOlder : (x y : NotificationEvent) → is_newer x y ≡ true → IsNoOlder x y
unfolding is_newer
newer-IsNoOlder x y h = ground (arith, text_ltb_asymm y.id x.id)

older-IsNoOlder : (x y : NotificationEvent) → is_newer y x ≡ false → IsNoOlder x y
unfolding is_newer
older-IsNoOlder x y h = ground arith

place-IsNewestFirst :
    (x : NotificationEvent) (ys : List NotificationEvent)
    → IsNewestFirst ys
    → IsNewestFirst (place x ys)
unfolding place IsNewestFirst
place-IsNewestFirst x [] h = tt
place-IsNewestFirst x (y ∷ []) h = elim (Bool-cases (is_newer y x)) [
  | inl newer ↦ rw newer (newer-IsNoOlder y x newer, tt)
  | inr older ↦ rw older (older-IsNoOlder x y older, tt)
]
place-IsNewestFirst x (y ∷ z ∷ zs) h = elim (Bool-cases (is_newer y x)) [
  | inl newer ↦
      ground (arith, newer, newer-IsNoOlder y x newer, place-IsNewestFirst x (z ∷ zs) h.1, h.0)
  | inr older ↦ rw older (older-IsNoOlder x y older, h)
]

pub newest_first-IsNewestFirst :
    (u : Text) (xs : List NotificationEvent) → IsNewestFirst (newest_first u xs)
unfolding newest_first IsNewestFirst
newest_first-IsNewestFirst u [] = tt
newest_first-IsNewestFirst u (x ∷ xs) = elim (Bool-cases (x.user_id == u)) [
  | inl own ↦ rw own (place-IsNewestFirst x _ (newest_first-IsNewestFirst u xs))
  | inr other ↦ rw other (newest_first-IsNewestFirst u xs)
]

place-perm : (x : NotificationEvent) (ys : List NotificationEvent) → Perm (place x ys) (x ∷ ys)
unfolding place
place-perm x [] = Perm.rfl
place-perm x (y ∷ ys) = elim (Bool-cases (is_newer y x)) [
  | inl newer ↦ rw newer (Perm.trans (Perm.cons y (place-perm x ys)) (Perm.swap x y ys))
  | inr older ↦ rw older Perm.rfl
]

pub newest_first-perm :
    (u : Text) (xs : List NotificationEvent) → Perm (newest_first u xs) (events_of u xs)
unfolding newest_first events_of
newest_first-perm u [] = Perm.rfl
newest_first-perm u (x ∷ xs) = elim (Bool-cases (x.user_id == u)) [
  | inl own ↦
      rw own (Perm.trans (place-perm x (newest_first u xs)) (Perm.cons x (newest_first-perm u xs)))
  | inr other ↦ rw other (newest_first-perm u xs)
]
