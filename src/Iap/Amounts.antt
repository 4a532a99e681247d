-- ===== src/Iap/Amounts.antt =====
-- How much a refund takes back (app/iap/refunds.py, `requested_amount`), and which revocations take
-- nothing.
use ggumirror_be.Base.{ℕ, ◌*◌, ◌/◌, ◌≤◌, ◌≡◌, refl, ap, Option, none, some, arith}
use ggumirror_be.Base.Int.{ℤ, pos, ◌≤ℤ◌, times, floor_div, max_ℤ, min_ℤ}
use ggumirror_be.Base.Text.{Text, text_eq, text_eqb}
use ggumirror_be.Base.Exec.{ok}
use ggumirror_be.Iap.Models.{refund_full, refund_prorated}
use ggumirror_be.Iap.Refunds.{requested_amount, milliunits_per_unit}

capped :
    (original share : ℤ)
    → pos 1 ≤ℤ original
    → (pos 1 ≤ℤ min_ℤ original (max_ℤ (pos 1) share))
      × (min_ℤ original (max_ℤ (pos 1) share) ≤ℤ original)
unfolding min_ℤ max_ℤ
capped original share h = ground arith

-- What a refund of a purchase takes back, where it can be computed, is at least one shard and at
-- most the shards of the purchase.
pub requested_amount_bounds :
    (original : ℤ) (revocation : Text) (p : Option ℤ) (r : ℤ)
    → pos 1 ≤ℤ original
    → requested_amount original revocation p ≡ ok r
    → (pos 1 ≤ℤ r) × (r ≤ℤ original)
unfolding requested_amount
requested_amount_bounds original revocation none r h e = ground arith
requested_amount_bounds original revocation (some p) r h e =
    ground (arith, capped original (floor_div (times original p) milliunits_per_unit))

times-pos : (a b : ℕ) → times (pos a) (pos b) ≡ pos (a * b)
unfolding times
times-pos a b = ground arith

whole : (n : ℕ) → floor_div (times (pos n) (pos 100_000)) 100_000 ≡ pos n
unfolding floor_div
whole n = rw (times-pos n 100_000) (ap pos (omega arith))

all_of_it : (n : ℕ) → 1 ≤ n → min_ℤ (pos n) (max_ℤ (pos 1) (pos n)) ≡ pos n
unfolding min_ℤ max_ℤ
all_of_it n h = ground arith

-- A prorated refund of a hundred percent, in Apple's milliunits, takes back what a full refund takes
-- whatever percentage it carries.
pub prorated_whole :
    (original : ℕ) (p : Option ℤ)
    → 1 ≤ original
    → requested_amount (pos original) refund_prorated (some (pos 100_000))
      ≡ requested_amount (pos original) refund_full p
unfolding requested_amount text_eqb
prorated_whole n p h = rw (whole n, all_of_it n h) refl

abbrev share : ℕ → ℕ → ℕ
share original p = original * p / 100_000

-- The least of the original and of the share, which counts as one at least.
abbrev taken : ℕ → ℕ → ℤ
taken original x = min_ℤ (pos original) (max_ℤ (pos 1) (pos x))

prorated-taken :
    (original p a : ℕ)
    → requested_amount (pos original) refund_prorated (some (pos p)) ≡ ok (pos a)
    → taken original (share original p) ≡ pos a
unfolding requested_amount text_eqb floor_div
prorated-taken original p a e = ground (arith, times-pos original p)

taken_mono :
    (original x y a b : ℕ) → x ≤ y → taken original x ≡ pos a → taken original y ≡ pos b → a ≤ b
unfolding min_ℤ max_ℤ
taken_mono original x y a b le e f = ground arith

share_mono : (original p q : ℕ) → p ≤ q → share original p ≤ share original q
share_mono original p q le =
    let product : original * p ≤ original * q = grind arith in omega (arith, product)

-- A larger share of one purchase never takes back less.
pub requested_amount_mono :
    (original p q a b : ℕ)
    → p ≤ q
    → requested_amount (pos original) refund_prorated (some (pos p)) ≡ ok (pos a)
    → requested_amount (pos original) refund_prorated (some (pos q)) ≡ ok (pos b)
    → a ≤ b
requested_amount_mono original p q a b le e f =
    taken_mono original (share original p) (share original q) a b (share_mono original p q le)
      (prorated-taken original p a e) (prorated-taken original q b f)
