-- ===== src/Shards/AttendanceLaws.antt =====
-- The daily reward and its status (app/shards/attendance.py).
use ggumirror_be.Base.{
  ℕ, ◌≡◌, refl, ◌≢◌, Bool, true, false, none, some, [], ◌∷◌, arith, ap, ◌∙◌, inl, inr, Option-cases,
}
use ggumirror_be.Base.Int.{ℤ, pos, ◌+ℤ◌, ◌≤ℤ◌, int_laws}
use ggumirror_be.Base.Text.{Text, text_eq, text_eqb_iff}
use ggumirror_be.Base.Dict.{get, contains, get-insert_self}
use ggumirror_be.Base.Exec.{ok}
use ggumirror_be.Shards.Models.{daily_attendance}
use ggumirror_be.Shards.Keys.{idempotency_hash}
use ggumirror_be.Shards.Store.{
  ShardStore, wallet, Change, event_applied, already_applied, apply, changed_wallet, changed_entry,
  moved_wallet, write_change,
}
use ggumirror_be.Shards.Service.{mutation, event_key, has_event, apply_change, credit, checked}
use ggumirror_be.Shards.Attendance.{attended, Attendance, attendance_date, status, claim, kst_day}
use ggumirror_be.Shards.Ledger.{
  IsSound, balance_of, balance_of-insert, wallet-balance, wallet-WalletOk,
}
use ggumirror_be.Shards.ApplyLaws.{apply_fresh, apply_replayed}

-- The answer to a call at a time.
abbrev pub answer : (ℕ → Text) → ℕ → Bool → ℕ → ℤ → Attendance
answer date_text now claimed reward balance = record {
  date = attendance_date date_text now;
  claimed = claimed;
  reward = reward;
  balance = balance;
}

module _ (sha256 : Text → Text) (date_text : ℕ → Text) where
  -- The key of a user's attendance on the day of a time.
  abbrev day_key : Text → ℕ → Text
  day_key u now = idempotency_hash sha256 u daily_attendance (attendance_date date_text now)

  abbrev reward_change : Text → ℕ → Change
  reward_change u now = record {
    user_id = u;
    delta = pos 1;
    reason = daily_attendance;
    key = some (day_key u now);
    quota = none;
    claim = none;
  }

  event_key-date :
      (u : Text) (d : Text)
      → d ≢ []
      → event_key sha256 u daily_attendance (some d)
        ≡ some (idempotency_hash sha256 u daily_attendance d)
  event_key-date u [] h = absurd (h refl)
  event_key-date u (b ∷ bs) h = refl

  claim-apply :
      (u fresh : Text) (now : ℕ) (s : ShardStore)
      → date_text (kst_day now) ≢ []
      → claim sha256 date_text u fresh now s
        ≡ attended
            (attendance_date date_text now)
            (mutation (apply (reward_change u now) fresh now s))
  unfolding claim credit checked apply_change attendance_date
  claim-apply u fresh now s h = rw (event_key-date u (date_text (kst_day now)) h)

  paid :
      (u : Text) (now : ℕ) (s : ShardStore)
      → answer date_text now true 1 (changed_wallet s (reward_change u now) now).balance
        ≡ answer date_text now true 1 (balance_of s u +ℤ pos 1)
  unfolding changed_wallet moved_wallet
  paid u now s = ap (λ (b : ℤ). answer date_text now true 1 (b +ℤ pos 1)) (wallet-balance s now u)

  written_balance :
      (u fresh : Text) (now : ℕ) (s : ShardStore)
      → balance_of (write_change s (reward_change u now) fresh now) u ≡ balance_of s u +ℤ pos 1
  unfolding write_change changed_wallet moved_wallet
  written_balance u fresh now s = ground (
    arith,
    balance_of-insert s (write_change s (reward_change u now) fresh now) u u
        (changed_wallet s (reward_change u now) now) refl,
    text_eqb_iff u u,
    wallet-balance s now u,
  )

  written_status :
      (u fresh : Text) (now : ℕ) (s : ShardStore)
      → contains (day_key u now) (write_change s (reward_change u now) fresh now).applied ≡ true
  unfolding write_change
  written_status u fresh now s = ground (
    arith,
    get-insert_self (day_key u now) (changed_entry s (reward_change u now) fresh now) s.applied,
  )

-- Where the books balance and a date is written as a text that is not empty, a call on a day in
-- Seoul whose status is not yet "received" pays one shard and says so, and the status of that day
-- is "received" afterwards.
pub attendance_first :
    (sha256 : Text → Text) (date_text : ℕ → Text) (u fresh : Text) (now : ℕ) (s : ShardStore)
    → IsSound s
    → date_text (kst_day now) ≢ []
    → (status sha256 date_text s u now).1 ≡ false
    → let (r, s') = claim sha256 date_text u fresh now s in
      (r ≡ ok (answer date_text now true 1 (balance_of s u +ℤ pos 1)))
      × (balance_of s' u ≡ balance_of s u +ℤ pos 1)
      × ((status sha256 date_text s' u now).1 ≡ true)
unfolding status has_event event_applied
attendance_first sha256 date_text u fresh now s h d new =
    let c = reward_change sha256 date_text u now in
    let free : already_applied s c.key ≡ none = unfold already_applied in ground arith in
    let fits : pos 0 ≤ℤ (wallet s now u).balance +ℤ pos 1 =
      omega (int_laws, (wallet-WalletOk s now u h).nonneg) in
    rw (claim-apply sha256 date_text u fresh now s d, apply_fresh c fresh now s refl refl free fits)
      (
        ap ok (paid sha256 date_text u now s),
        written_balance sha256 date_text u fresh now s,
        written_status sha256 date_text u fresh now s,
      )

-- On a day in Seoul whose status is "received", a call at any time of that day succeeds, pays
-- nothing and changes nothing, where a date is written as a text that is not empty.
pub attendance_again :
    (sha256 : Text → Text) (date_text : ℕ → Text) (u fresh : Text) (now later : ℕ) (s : ShardStore)
    → date_text (kst_day now) ≢ []
    → kst_day later ≡ kst_day now
    → (status sha256 date_text s u now).1 ≡ true
    → let (r, s') = claim sha256 date_text u fresh later s in
      (w : ℤ) × (r ≡ ok (answer date_text now false 0 w)) × (s' ≡ s)
unfolding status has_event event_applied
attendance_again sha256 date_text u fresh now later s d same old =
    let c = reward_change sha256 date_text u later in
    let dates : attendance_date date_text later ≡ attendance_date date_text now =
      unfold attendance_date in ap date_text same in
    let key = day_key sha256 date_text u now in
    elim (Option-cases (get key s.applied)) [
      | inl missing ↦ ground arith
      | inr (e, found) ↦
          let found_later : already_applied s c.key ≡ some e =
            unfold already_applied in
            ap (λ (t : Text). get (idempotency_hash sha256 u daily_attendance t) s.applied) dates
            ∙ found in
          rw
            (
              claim-apply sha256 date_text u fresh later s (rw same d),
              apply_replayed c fresh later s e refl found_later,
            )
            ((wallet s later e.user_id).balance, rw dates refl, refl)
    ]
