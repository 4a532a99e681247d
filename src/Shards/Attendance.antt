-- ===== src/Shards/Attendance.antt =====
-- app/shards/attendance.py: one shard a day, by the server's date in Seoul. A time is a number of
-- seconds since 1970-01-01 in UTC, and `date_text` is Python's `strftime("%Y-%m-%d")` of a day.
use ggumirror_be.Base.{ℕ, ◌+◌, ◌*◌, ◌/◌, Bool, none, some, if◌then◌else◌}
use ggumirror_be.Base.Int.{ℤ, pos}
use ggumirror_be.Base.Text.{Text}
use ggumirror_be.Base.Exec.{Result, ok, err}
use ggumirror_be.Shards.Models.{daily_attendance, ShardMutationResult}
use ggumirror_be.Shards.Store.{ShardStore}
use ggumirror_be.Shards.Service.{has_event, credit}

abbrev pub daily_reward : ℕ
daily_reward = 1

abbrev pub kst_offset : ℕ
kst_offset = 9 * 3600

-- The number of the day in Seoul.
unfoldable pub kst_day : ℕ → ℕ
kst_day now = (now + kst_offset) / 86400

pub record Attendance : Type 0 where
  pub date : Text
  pub claimed : Bool
  pub reward : ℕ
  pub balance : ℤ

abbrev pub attended :
    Text → Result ShardMutationResult × ShardStore → Result Attendance × ShardStore
attended date (err e, s) = (err e, s)
attended date (ok r, s) = (
  ok (record {
    date = date;
    claimed = r.applied;
    reward = if r.applied then daily_reward else 0;
    balance = r.wallet.balance;
  }),
  s,
)

unfoldable pub attendance_date : (ℕ → Text) → ℕ → Text
attendance_date date_text now = date_text (kst_day now)

module _ (sha256 : Text → Text) (date_text : ℕ → Text) where
  unfoldable pub status : ShardStore → Text → ℕ → Text × Bool
  status s u now = (
    attendance_date date_text now,
    has_event sha256 s u daily_attendance (attendance_date date_text now),
  )

  unfoldable pub claim : Text → Text → ℕ → ShardStore → Result Attendance × ShardStore
  claim u fresh now s = attended (attendance_date date_text now) (
      credit sha256 u (pos daily_reward) daily_attendance (some (attendance_date date_text now))
        none none none fresh now s)
