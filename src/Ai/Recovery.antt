-- ===== src/Ai/Recovery.antt =====
-- `reconcile` and a late `_fail` (app/ai/service.py): how a job that was left behind is settled.
use ggumirror_be.Base.{◌≡◌, refl, ap, ◌∙◌, Bool, true, false, some, arith}
use ggumirror_be.Base.Int.{◌+ℤ◌}
use ggumirror_be.Base.Text.{Text, text_eq}
use ggumirror_be.Base.Dict.{get, insert, contains, get-insert_self}
use ggumirror_be.Base.Exec.{AiStickerReason, interrupted}
use ggumirror_be.Shards.Store.{ShardStore}
use ggumirror_be.Shards.Ledger.{balance_of}
use ggumirror_be.Shards.Payments.{Moves}
use ggumirror_be.Ai.Models.{
  Generation, succeeded, refunded, can_transition, is_terminal, is_lease_expired, refund_event_id,
}
use ggumirror_be.Ai.Store.{finished, steal_expired, stolen, object_name}
use ggumirror_be.Ai.Service.{
  AiStore, AiStickerService, Outside, finish_in, failure, success, sweep_orphan,
}
use ggumirror_be.Ai.Jobs.{fail_job, reconcile, recovered, swept}
use ggumirror_be.Ai.Refunds.{
  CanRefund, refund_key, refund_job-Moves, fail_job-Moves, finish_wins, finish_ended,
  failure-refunded,
}

-- A worker that reports a failure after its job has ended elsewhere leaves the job as it ended, and
-- pays the price into the wallet all the same, where the books balance, the ledger answers and had
-- not made this refund: so also for a job that has succeeded.
pub late_fail_pays :
    (c : AiStickerService) (g h : Generation) (reason : AiStickerReason) (o : Outside) (w : AiStore)
    → CanRefund c g o w
    → get g.id w.generations ≡ some h
    → is_terminal h.status ≡ true
    → let (answer, w') = fail_job c g reason o w in
      (answer ≡ h)
      × (w'.generations ≡ w.generations)
      × (balance_of w'.shards g.user_id ≡ balance_of w.shards g.user_id +ℤ g.price)
unfolding fail_job finish_in
late_fail_pays c g h reason o w can there ended =
    let (s', e, moves) = refund_job-Moves c g o w can in
    let f = failure g reason (some (refund_event_id g)) in
    let lost = finish_ended g.id h f o.later w.generations there ended in
    rw (e, lost, there) (refl, refl, moves.balance)

module _ (c : AiStickerService) (g : Generation) (o : Outside) (w : AiStore) where
  -- A job that nobody holds, on a day when the storage and the ledger answer.
  pub record CanSettle : Type 0 where
    pub stands : get g.id w.generations ≡ some g
    pub free : is_lease_expired g o.now ≡ true
    pub answers : o.exists_fails ≡ false
    pub refund : CanRefund c g o w

  abbrev taken : Generation
  taken = stolen g o.now

  abbrev held : AiStore
  held = record w { generations = insert g.id taken w.generations }

  steal_wins :
      CanSettle
      → steal_expired g.id o.now w.generations ≡ (some taken, insert g.id taken w.generations)
  unfolding steal_expired
  steal_wins h = rw h.stands (rw h.free refl)

  held_there : get taken.id held.generations ≡ some taken
  unfolding stolen
  held_there = get-insert_self g.id taken w.generations

  held-CanRefund : CanRefund c g o w → CanRefund c taken o held
  unfolding stolen refund_event_id
  held-CanRefund h = record { sound = h.sound; amount = h.amount; answers = h.answers; new = h.new }

  abbrev drawn_job : Generation
  drawn_job = finished taken (success taken o.later) o.later

  abbrev given_back : Generation
  given_back = finished taken (failure taken interrupted (some (refund_event_id taken))) o.later

  -- What the storage holds decides: the image makes the job succeed and costs nothing more;
  -- without it the job is refunded.
  abbrev pub Settled : Bool → Generation × AiStore → Type 0
  Settled true (answer, w') =
      (answer.status ≡ succeeded) × (get g.id w'.generations ≡ some answer) × (w'.shards ≡ w.shards)
  Settled false (answer, w') =
      (answer.status ≡ refunded)
      × (get g.id w'.generations ≡ some answer)
      × (balance_of w'.shards g.user_id ≡ balance_of w.shards g.user_id +ℤ g.price)

  with_image :
      CanSettle
      → contains (object_name taken.id) w.objects ≡ true
      → recovered c taken o held
        ≡ (drawn_job, record held { generations = insert taken.id drawn_job held.generations })
  unfolding finish_in success stolen can_transition
  with_image h found =
      let won =
        finish_wins taken (success taken o.later) o.later held.generations held_there refl refl in
      rw h.answers (rw found (rw won refl))

  without_image :
      CanSettle
      → contains (object_name taken.id) w.objects ≡ false
      → (s' : ShardStore) × (fail_job c taken interrupted o held ≡ (
        given_back,
        record held { shards = s'; generations = insert taken.id given_back held.generations },
      ))
        × Moves w.shards s' g.user_id (refund_key c g o w) g.price
  unfolding stolen refund_event_id
  without_image h missing =
      fail_job-Moves c taken o held interrupted (held-CanRefund h.refund) held_there refl

  given_back-status : given_back.status ≡ refunded
  unfolding finished
  given_back-status = failure-refunded taken interrupted

  sweep-unmoved :
      (name : Text) (v : AiStore)
      → ((sweep_orphan name o v).generations ≡ v.generations)
        × ((sweep_orphan name o v).shards ≡ v.shards)
  unfolding sweep_orphan
  sweep-unmoved name v = ground arith

  drawn_job-status : drawn_job.status ≡ succeeded
  unfolding finished success
  drawn_job-status = refl

  fails-swept :
      CanSettle
      → contains (object_name taken.id) w.objects ≡ false
      → recovered c taken o held
        ≡ swept c (object_name taken.id) o (fail_job c taken interrupted o held)
  fails-swept h missing = simp (h.answers, missing)

  settled_without :
      CanSettle
      → contains (object_name taken.id) w.objects ≡ false
      → Settled false (recovered c taken o held)
  unfolding stolen finished failure refund_event_id
  settled_without h missing =
      let (s', e, moves) = without_image h missing in
      let v : AiStore = record held {
        shards = s';
        generations = insert taken.id given_back held.generations;
      } in
      let kept = sweep-unmoved (object_name taken.id) v in
      let path = fails-swept h missing ∙ ap (swept c (object_name taken.id) o) e in
      rw (path, given_back-status)
        (
          given_back-status,
          ap (get g.id) kept.0 ∙ get-insert_self g.id given_back held.generations,
          ap (λ (s : ShardStore). balance_of s g.user_id) kept.1 ∙ moves.balance,
        )

  settled :
      CanSettle
      → (b : Bool) → contains (object_name taken.id) w.objects ≡ b
      → Settled b (recovered c taken o held)
  unfolding stolen
  settled h true found =
      rw (with_image h found)
        (drawn_job-status, get-insert_self taken.id drawn_job held.generations, refl)
  settled h false missing = settled_without h missing

  reconcile-recovered : CanSettle → reconcile c g o w ≡ recovered c taken o held
  unfolding reconcile
  reconcile-recovered h = rw (steal_wins h) refl

  -- A pending job that nobody holds is settled by one call, where the storage and the ledger
  -- answer, the books balance, the price is an amount that the ledger takes and no refund of the
  -- job has been made: it has succeeded if its image is in the storage, with the ledger untouched,
  -- and is refunded otherwise, with its price back in the wallet.
  pub reconcile_settles :
      CanSettle → Settled (contains (object_name g.id) w.objects) (reconcile c g o w)
  unfolding stolen
  reconcile_settles h = rw (reconcile-recovered h) (settled h _ refl)
