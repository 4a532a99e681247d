-- ===== src/Notifications/Pages.antt =====
-- Reading a user's notifications page by page (app/notifications).
use ggumirror_be.Base.{
  ℕ, zero, suc, ◌+◌, ◌≤◌, ◌≡◌, refl, ap, ◌∙◌, Bool, true, false, Option, none, some, List, [], ◌∷◌,
  ◌++◌, arith, inl, inr, Option-cases, if◌then◌else◌,
}
use ggumirror_be.Base.Text.{Text, text_eq, text_eqb_iff, ◌==◌}
use ggumirror_be.Base.Dict.{values}
use ggumirror_be.Marketplace.Models.{NotificationEvent}
use ggumirror_be.Notifications.{
  Events, newest_first, after_cursor, first_of, next_cursor, from_cursor, page, service_page,
  page_limit,
}

unfoldable pub has_id : Text → List NotificationEvent → Bool
has_id c [] = false
has_id c (x ∷ xs) = let rest = has_id c xs in if x.id == c then true else rest

-- No two events have one id.
unfoldable pub IsDistinct : List NotificationEvent → Type 0
IsDistinct [] = Unit {0}
IsDistinct (x ∷ xs) = (has_id x.id xs ≡ false) × IsDistinct xs

unfoldable pub count : List NotificationEvent → ℕ
count [] = 0
count (x ∷ xs) = 1 + count xs

unfoldable pub rest_of : ℕ → List NotificationEvent → List NotificationEvent
rest_of zero xs = xs
rest_of (suc n) [] = []
rest_of (suc n) (x ∷ xs) = rest_of n xs

abbrev follow :
    (Option Text → List NotificationEvent)
    → List NotificationEvent × Option Text
    → List NotificationEvent
follow more (xs, none) = xs
follow more (xs, some c) = xs ++ more (some c)

-- What a client does: it asks for a page, and for the next as long as there is a cursor.
unfoldable pub read_all : ℕ → Text → Option Text → ℕ → Events → List NotificationEvent
read_all zero u cursor limit d = []
read_all (suc fuel) u cursor limit d =
    follow (λ c. read_all fuel u c limit d) (service_page u cursor limit d)

next_cursor-has_id :
    (n : ℕ) (xs : List NotificationEvent) (c : Text)
    → next_cursor n xs ≡ some c
    → has_id c xs ≡ true
unfolding next_cursor has_id
next_cursor-has_id zero xs c h = cc
next_cursor-has_id (suc n) [] c h = cc
next_cursor-has_id (suc n) (x ∷ []) c h = cc
next_cursor-has_id (suc zero) (x ∷ y ∷ ys) c h = ground (arith, text_eqb_iff x.id c)
next_cursor-has_id (suc (suc n)) (x ∷ y ∷ ys) c h =
    ground (arith, next_cursor-has_id (suc n) (y ∷ ys) c h)

after_cursor-has_id :
    (a c : Text) (xs : List NotificationEvent)
    → has_id c (after_cursor a xs) ≡ true
    → has_id c xs ≡ true
unfolding after_cursor has_id
after_cursor-has_id a c [] h = cc
after_cursor-has_id a c (x ∷ xs) h = ground (arith, after_cursor-has_id a c xs)

after_cursor-IsDistinct :
    (a : Text) (xs : List NotificationEvent) → IsDistinct xs → IsDistinct (after_cursor a xs)
unfolding after_cursor IsDistinct
after_cursor-IsDistinct a [] h = tt
after_cursor-IsDistinct a (x ∷ xs) h = ground (arith, after_cursor-IsDistinct a xs h.1)

-- An id that stands later is not the first one.
first_differs :
    (x : NotificationEvent) (xs : List NotificationEvent) (c : Text)
    → has_id x.id xs ≡ false
    → has_id c xs ≡ true
    → (x.id == c) ≡ false
first_differs x xs c h k = ground (arith, text_eqb_iff x.id c)

after_cursor-after_cursor :
    (a c : Text) (xs : List NotificationEvent)
    → IsDistinct xs
    → has_id c (after_cursor a xs) ≡ true
    → after_cursor c xs ≡ after_cursor c (after_cursor a xs)
unfolding after_cursor IsDistinct has_id
after_cursor-after_cursor a c [] h k = refl
after_cursor-after_cursor a c (x ∷ xs) h k = ground (
  arith,
  first_differs x xs c h.0,
  after_cursor-has_id a c xs,
  after_cursor-after_cursor a c xs h.1,
)

after_next_cursor :
    (n : ℕ) (xs : List NotificationEvent) (c : Text)
    → IsDistinct xs
    → next_cursor n xs ≡ some c
    → after_cursor c xs ≡ rest_of n xs
unfolding next_cursor after_cursor IsDistinct rest_of
after_next_cursor zero xs c h k = cc
after_next_cursor (suc n) [] c h k = cc
after_next_cursor (suc n) (x ∷ []) c h k = cc
after_next_cursor (suc zero) (x ∷ y ∷ ys) c h k = ground (arith, text_eqb_iff x.id c)
after_next_cursor (suc (suc n)) (x ∷ y ∷ ys) c h k =
    let later = next_cursor-has_id (suc n) (y ∷ ys) c k in
    let differs = first_differs x (y ∷ ys) c h.0 later in
    ground (arith, after_next_cursor (suc n) (y ∷ ys) c h.1 k)

first_of-empty : (n : ℕ) → first_of n [] ≡ []
unfolding first_of
first_of-empty zero = refl
first_of-empty (suc n) = refl

first_of-whole :
    (n : ℕ) (xs : List NotificationEvent) → next_cursor (suc n) xs ≡ none → first_of (suc n) xs ≡ xs
unfolding next_cursor first_of
first_of-whole n [] h = refl
first_of-whole n (x ∷ []) h = ap (λ t. x ∷ t) (first_of-empty n)
first_of-whole zero (x ∷ y ∷ ys) h = cc
first_of-whole (suc n) (x ∷ y ∷ ys) h = ap (λ t. x ∷ t) (first_of-whole n (y ∷ ys) h)

first_of-rest_of : (n : ℕ) (xs : List NotificationEvent) → first_of n xs ++ rest_of n xs ≡ xs
unfolding first_of rest_of
first_of-rest_of zero xs = refl
first_of-rest_of (suc n) [] = refl
first_of-rest_of (suc n) (x ∷ xs) = ap (λ t. x ∷ t) (first_of-rest_of n xs)

rest_of-count :
    (n : ℕ) (xs : List NotificationEvent) (c : Text)
    → next_cursor (suc n) xs ≡ some c
    → count (rest_of (suc n) xs) + 1 ≤ count xs
unfolding next_cursor rest_of count
rest_of-count n [] c h = cc
rest_of-count n (x ∷ []) c h = cc
rest_of-count zero (x ∷ y ∷ ys) c h = omega arith
rest_of-count (suc n) (x ∷ y ∷ ys) c h = omega (arith, rest_of-count n (y ∷ ys) c h)

page_limit-positive : (limit : ℕ) → 1 ≤ page_limit limit
unfolding page_limit
page_limit-positive limit = ground arith

suc_of : (n : ℕ) → 1 ≤ n → (m : ℕ) × (n ≡ suc m)
suc_of zero h = absurd (omega (arith, h))
suc_of (suc m) h = (m, refl)

module _ (u : Text) (limit : ℕ) (d : Events)
    (distinct : IsDistinct (newest_first u (values d))) where
  abbrev rest_from : Option Text → List NotificationEvent
  rest_from cursor = from_cursor cursor (newest_first u (values d))

  rest_from-IsDistinct : (cursor : Option Text) → IsDistinct (rest_from cursor)
  rest_from-IsDistinct none = distinct
  rest_from-IsDistinct (some c) = after_cursor-IsDistinct c (newest_first u (values d)) distinct

  rest_from-next :
      (cursor : Option Text) (n : ℕ) (c : Text)
      → next_cursor n (rest_from cursor) ≡ some c
      → rest_from (some c) ≡ rest_of n (rest_from cursor)
  rest_from-next none n c h = after_next_cursor n _ c distinct h
  rest_from-next (some a) n c h =
      after_cursor-after_cursor a c (newest_first u (values d)) distinct
        (next_cursor-has_id n (rest_from (some a)) c h)
      ∙ after_next_cursor n _ c (rest_from-IsDistinct (some a)) h

  read_all-rest :
      (fuel : ℕ) (cursor : Option Text)
      → count (rest_from cursor) + 1 ≤ fuel
      → read_all fuel u cursor limit d ≡ rest_from cursor
  unfolding read_all service_page page
  read_all-rest zero cursor h = absurd (omega (arith, h))
  read_all-rest (suc fuel) cursor h =
      let (n, size) = suc_of (page_limit limit) (page_limit-positive limit) in
      let xs = rest_from cursor in
      elim (Option-cases (next_cursor (suc n) xs)) [
        | inl last ↦ rw (size, last) (first_of-whole n xs last)
        | inr (c, more) ↦
            let next = rest_from-next cursor (suc n) c more in
            let shorter = rest_of-count n xs c more in
            let fits : count (rest_from (some c)) + 1 ≤ fuel =
              rw next (omega (arith, shorter, h)) in
            rw (size, more)
              (ap (λ t. first_of (suc n) xs ++ t) (read_all-rest fuel (some c) fits ∙ next)
                ∙ first_of-rest_of (suc n) xs)
      ]

-- Where no two of a user's notifications have one id, following the cursors from the first page reads
-- every notification of that user once, newest first, whatever the page's size that is asked for; it
-- ends after at most one request more than there are notifications.
pub read_all-newest_first :
    (u : Text) (limit : ℕ) (d : Events)
    → IsDistinct (newest_first u (values d))
    → read_all (count (newest_first u (values d)) + 1) u none limit d ≡ newest_first u (values d)
read_all-newest_first u limit d distinct = read_all-rest u limit d distinct _ none (omega arith)
