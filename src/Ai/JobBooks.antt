-- ===== src/Ai/JobBooks.antt =====
-- The ledger under the steps of one job (app/ai/service.py): the run, the refund, the recovery.
use ggumirror_be.Base.{ℕ, not, Option, none, some, List, arith, if-all}
use ggumirror_be.Base.Text.{Text, text_eq}
use ggumirror_be.Base.Dict.{contains}
use ggumirror_be.Base.Exec.{AiStickerReason, Error, Result, ok, err, storage_failed, interrupted}
use ggumirror_be.Shards.Models.{ShardMutationResult, ShardLedgerEntry}
use ggumirror_be.Shards.Store.{ShardStore}
use ggumirror_be.Ai.Lines.{IsBooked, refund-IsBooked}
use ggumirror_be.Ai.Made.{IsMade, AllMade, FoundMade, finish-AllMade, steal_expired-AllMade}
use ggumirror_be.Ai.Models.{Generation, is_pending, is_failed, is_recoverable}
use ggumirror_be.Ai.Prompt.{Characters}
use ggumirror_be.Ai.Store.{Finish, steal_expired, object_name}
use ggumirror_be.Ai.Service.{
  AiStore, AiStickerService, Outside, sticker_reason, finish_in, abandon, sweep_orphan, or_current,
}
use ggumirror_be.Ai.Jobs.{
  refund_made, refund_job, fail_job, stored, raised, drawn, run, retried, retry_refund, swept,
  recovered, reconciled, reconcile, resume,
}

module _ (c : AiStickerService) (base : List ShardLedgerEntry) where
  -- The ledger and the jobs' prices, as they stand between two calls.
  abbrev pub Booked : AiStore → Type 0
  Booked w = IsBooked c base w.shards × AllMade c w.generations

  abbrev pub Kept : {A : Type 0} → A × AiStore → Type 0
  Kept out = Booked out.1

  module _ (o : Outside) where
    refund_made-Kept :
        (g : Generation) (w : AiStore) (out : Result ShardMutationResult × ShardStore)
        → AllMade c w.generations
        → IsBooked c base out.1
        → Kept (refund_made c g w out)
    refund_made-Kept g w (ok r, s) p h = (h, p)
    refund_made-Kept g w (err e, s) p h = (h, p)

    refund_job-Kept :
        (g : Generation) (w : AiStore) → IsMade c g → Booked w → Kept (refund_job c g o w)
    unfolding refund_job
    refund_job-Kept g w e h =
        if-all Kept o.refund_fails _ _ h (
          refund_made-Kept g w _ h.1
            (refund-IsBooked c base g o.refund_line o.later w.shards e h.0))

    or_current-Kept :
        (g : Generation) (out : Option Generation × AiStore) → Kept out → Kept (or_current g out)
    or_current-Kept g (none, w) h = h
    or_current-Kept g (some f, w) h = h

    pub finish_in-Kept :
        (g : Generation) (f : Finish) (now : ℕ) (w : AiStore)
        → Booked w
        → Kept (finish_in g f now w)
    unfolding finish_in
    finish_in-Kept g f now w h = (h.0, finish-AllMade c g.id f now w.generations h.1)

    fail_job-Kept :
        (g : Generation) (reason : AiStickerReason) (w : AiStore)
        → IsMade c g
        → Booked w
        → Kept (fail_job c g reason o w)
    unfolding fail_job
    fail_job-Kept g reason w p h =
        or_current-Kept g _ (finish_in-Kept g _ o.later _ (refund_job-Kept g w p h))

    abandon-Kept :
        (g : Generation) (name : Text) (w : AiStore) → Booked w → Kept (abandon g name o w)
    unfolding abandon
    abandon-Kept g name w h = ground arith

    stored-Kept :
        (g : Generation) (out : Option Generation × AiStore) → Kept out → Kept (stored c g o out)
    stored-Kept g (some f, w) h = h
    stored-Kept g (none, w) h = abandon-Kept g (object_name g.id) w h

    raised-Kept :
        (g : Generation) (e : Error) (w : AiStore) (reason : Option AiStickerReason)
        → IsMade c g
        → Booked w
        → Kept (raised c g e o w reason)
    raised-Kept g e w none p h = h
    raised-Kept g e w (some reason) p h = fail_job-Kept g reason w p h

    drawn-Kept :
        (g : Generation) (w : AiStore) (image : Result Text)
        → IsMade c g
        → Booked w
        → Kept (drawn c g o w image)
    drawn-Kept g w (err e) p h = raised-Kept g e w (sticker_reason e) p h
    drawn-Kept g w (ok png) p h =
        if-all {A = Generation × AiStore} Kept o.put_fails _ _
          (fail_job-Kept g storage_failed w p h) (stored-Kept g _ (finish_in-Kept g _ o.later _ h))

    pub run-Kept :
        (g : Generation) (prompt : Characters) (w : AiStore)
        → IsMade c g
        → Booked w
        → Kept (run c g prompt o w)
    unfolding run
    run-Kept g prompt w p h = drawn-Kept g w (o.provider prompt) p h

    retried-Kept :
        (g : Generation) (out : Option Text × AiStore) → Kept out → Kept (retried c g o out)
    retried-Kept g (none, w) h = h
    retried-Kept g (some entry, w) h = finish_in-Kept g _ o.later w h

    swept-Kept : (name : Text) (out : Generation × AiStore) → Kept out → Kept (swept c name o out)
    unfolding sweep_orphan
    swept-Kept name (g, w) h = ground arith

    recovered-Kept :
        (g : Generation) (w : AiStore) → IsMade c g → Booked w → Kept (recovered c g o w)
    recovered-Kept g w p h = if-all {A = Generation × AiStore} Kept o.exists_fails _ _ h (
        if-all {A = Generation × AiStore} Kept (contains (object_name g.id) w.objects) _ _
          (or_current-Kept g _ (finish_in-Kept g _ o.later w h))
          (swept-Kept (object_name g.id) (fail_job c g interrupted o w)
            (fail_job-Kept g interrupted w p h)))

    reconciled-Kept :
        (g : Generation) (w : AiStore) (taken : Option Generation)
        → FoundMade c taken
        → Booked w
        → Kept (reconciled c g o w taken)
    reconciled-Kept g w none p h = h
    reconciled-Kept g w (some g') p h = recovered-Kept g' w p h

    pub reconcile-Kept : (g : Generation) (w : AiStore) → Booked w → Kept (reconcile c g o w)
    unfolding reconcile
    reconcile-Kept g w h =
        let taken = steal_expired-AllMade c g.id o.now w.generations h.1 in
        reconciled-Kept g _ (steal_expired g.id o.now w.generations).0 taken.0 (h.0, taken.1)

    pub resume-Kept : (g : Generation) (w : AiStore) → IsMade c g → Booked w → Kept (resume c g o w)
    unfolding resume retry_refund
    resume-Kept g w p h =
        if-all {A = Generation × AiStore} Kept (not (is_pending g.status)) _ _
          (if-all {A = Generation × AiStore} Kept (is_failed g.status) _ _
            (retried-Kept g _ (refund_job-Kept g w p h)) h)
          (if-all {A = Generation × AiStore} Kept (not (is_recoverable g o.now)) _ _ h
            (reconcile-Kept g w h))
