-- ===== src/Ai/Refunds.antt =====
-- `_refund` and `_fail` (app/ai/service.py) against the ledger.
use ggumirror_be.Base.{ℕ, ◌≡◌, ◌≢◌, refl, ap, true, false, none, some, [], arith}
use ggumirror_be.Base.Text.{Text, text_eq}
use ggumirror_be.Base.Dict.{get, insert}
use ggumirror_be.Base.Exec.{AiStickerReason}
use ggumirror_be.Shards.Models.{refund}
use ggumirror_be.Shards.Keys.{idempotency_hash}
use ggumirror_be.Shards.Store.{ShardStore, claim_conflict}
use ggumirror_be.Shards.Ledger.{IsSound}
use ggumirror_be.Shards.Payments.{IsAmount, Moves, credit-Pays}
use ggumirror_be.Ai.Models.{
  Generation, pending, refunded, can_transition, is_terminal, refund_event_id,
}
use ggumirror_be.Ai.Store.{Generations, Finish, finish, finished}
use ggumirror_be.Ai.Service.{AiStore, AiStickerService, Outside, finish_in, failure}
use ggumirror_be.Ai.Jobs.{refund_job, refund_made, fail_job}

pub finish_wins :
    (g : Generation) (f : Finish) (now : ℕ) (d : Generations)
    → get g.id d ≡ some g
    → can_transition g.status f.status ≡ true
    → f.expected_lease ≡ g.lease_expires_at
    → finish g.id f now d ≡ (some (finished g f now), insert g.id (finished g f now) d)
unfolding finish
finish_wins g f now d there may lease = ground arith

-- A job that has ended is not finished again.
pub finish_ended :
    (id : Text) (g : Generation) (f : Finish) (now : ℕ) (d : Generations)
    → get id d ≡ some g
    → is_terminal g.status ≡ true
    → finish id f now d ≡ (none, d)
unfolding finish is_terminal can_transition
finish_ended id g f now d there ended = ground arith

event-nonempty : (g : Generation) → refund_event_id g ≢ []
unfolding refund_event_id
event-nonempty g e = cc

pub failure-refunded :
    (g : Generation) (reason : AiStickerReason)
    → (failure g reason (some (refund_event_id g))).status ≡ refunded
unfolding refund_event_id failure
failure-refunded g reason = refl

failure-lease :
    (g : Generation) (reason : AiStickerReason)
    → (failure g reason (some (refund_event_id g))).expected_lease ≡ g.lease_expires_at
unfolding failure
failure-lease g reason = refl

pending-refunded :
    (g : Generation) (reason : AiStickerReason)
    → g.status ≡ pending
    → can_transition g.status (failure g reason (some (refund_event_id g))).status ≡ true
unfolding can_transition
pending-refunded g reason h = rw (failure-refunded g reason, h) refl

module _ (c : AiStickerService) (g : Generation) (o : Outside) (w : AiStore) where
  -- The key of the one ledger line that gives a job's price back.
  abbrev pub refund_key : Text
  refund_key = idempotency_hash c.sha256 g.user_id refund (refund_event_id g)

  -- A refund that can be made: the ledger answers and has not made it yet.
  pub record CanRefund : Type 0 where
    pub sound : IsSound w.shards
    pub amount : IsAmount g.price
    pub answers : o.refund_fails ≡ false
    pub new : get refund_key w.shards.applied ≡ none

  -- It pays the price into the wallet of the job's user, and says under which event.
  pub refund_job-Moves :
      CanRefund
      → (s' : ShardStore) × (refund_job c g o w
          ≡ (some (refund_event_id g), record w { shards = s' }))
        × Moves w.shards s' g.user_id refund_key g.price
  unfolding refund_job claim_conflict
  refund_job-Moves h =
      let (s', e, moves) =
        credit-Pays c.sha256 g.user_id g.price refund (refund_event_id g) o.refund_line o.later
          w.shards h.sound h.amount (event-nonempty g) h.new none refl in
      (s', rw h.answers (ap (refund_made c g w) e), moves)

  abbrev failed_job : AiStickerReason → Generation
  failed_job reason = finished g (failure g reason (some (refund_event_id g))) o.later

  -- A failure of a job that the call holds: the job is refunded and its price is back.
  pub fail_job-Moves :
      (reason : AiStickerReason)
      → CanRefund
      → get g.id w.generations ≡ some g
      → g.status ≡ pending
      → (s' : ShardStore) × (fail_job c g reason o w ≡ (
        failed_job reason,
        record w { shards = s'; generations = insert g.id (failed_job reason) w.generations },
      ))
        × Moves w.shards s' g.user_id refund_key g.price
  unfolding fail_job finish_in
  fail_job-Moves reason h there held =
      let (s', e, moves) = refund_job-Moves h in
      let f = failure g reason (some (refund_event_id g)) in
      let won =
        finish_wins g f o.later w.generations there (pending-refunded g reason held)
          (failure-lease g reason) in
      (s', rw (e, won) refl, moves)
