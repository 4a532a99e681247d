-- ===== src/Ai/Jobs.antt =====
-- app/ai/service.py, `AIStickerService`: the methods of the service.
use ggumirror_be.Base.{
  ℕ, ◌+◌, Bool, true, false, not, ◌&&◌, Option, none, some, List, [], ◌∷◌, if◌then◌else◌,
}
use ggumirror_be.Base.Text.{Text, text_eq, ◌==◌}
use ggumirror_be.Base.Dict.{get, insert, contains}
use ggumirror_be.Base.Exec.{
  AiStickerReason, Error, Result, ok, err, ◌>>◌, raise_if, or_raise, not_configured, storage_failed,
  no_shards, not_found, result_expired, still_pending, ai_sticker_error, interrupted,
}
use ggumirror_be.Shards.Models.{ai_sticker, refund, ShardMutationResult}
use ggumirror_be.Shards.Store.{ShardStore}
use ggumirror_be.Shards.Service.{credit, debit}
use ggumirror_be.Ai.Models.{
  Generation, is_pending, is_succeeded, is_failed, is_refunded, generation_id, refund_event_id,
  is_recoverable, is_result_available,
}
use ggumirror_be.Ai.Prompt.{Characters, normalize_prompt, checked_request_id}
use ggumirror_be.Ai.Store.{create_pending, steal_expired, stale_pending, leased, object_name}
use ggumirror_be.Ai.Service.{
  AiStore, AiStickerService, Outside, Answer, or_else, current_of, sticker_reason, is_insufficient,
  new_generation, success, failure, unpaid, late_refund, finish_in, abandon, sweep_orphan,
  or_current,
}

abbrev pub reason_or_missing : Option AiStickerReason → AiStickerReason
reason_or_missing none = not_found
reason_or_missing (some reason) = reason

abbrev pub object_or : Option Text → Text → Text
object_or (some (b ∷ name)) other = b ∷ name
object_or _ other = other

-- What `result` answers for a job, given what is in the bucket.
unfoldable pub image_of : Text → Outside → Generation → AiStore → Result Text
image_of id o g w = do
  raise_if (is_pending g.status) (ai_sticker_error still_pending)
  raise_if (not (is_succeeded g.status)) (ai_sticker_error (reason_or_missing g.failure_reason))
  raise_if (not (is_result_available g o.later)) (ai_sticker_error result_expired)
  or_raise (get (object_or g.result_object (object_name id)) w.objects)
      (ai_sticker_error result_expired)

abbrev pub image_if : Text → Outside → Answer → Result Text × AiStore
image_if id o (err e, w) = (err e, w)
image_if id o (ok g, w) = (image_of id o g w, w)

module _ (c : AiStickerService) where
  unfoldable pub is_available : Bool
  is_available = c.provider_configured && c.storage_configured

  abbrev pub refund_made :
      Generation → AiStore → Result ShardMutationResult × ShardStore → Option Text × AiStore
  refund_made g w (ok _, s) = (some (refund_event_id g), record w { shards = s })
  refund_made g w (err _, s) = (none, record w { shards = s })

  -- `_refund`
  unfoldable pub refund_job : Generation → Outside → AiStore → Option Text × AiStore
  refund_job g o w =
      if o.refund_fails
      then (none, w)
      else refund_made g w (
          credit c.sha256 g.user_id g.price refund (some (refund_event_id g)) none none none
            o.refund_line o.later w.shards)

  -- `_fail`
  unfoldable pub fail_job : Generation → AiStickerReason → Outside → AiStore → Generation × AiStore
  fail_job g reason o w =
      let refunded = refund_job g o w in
      or_current g (finish_in g (failure g reason refunded.0) o.later refunded.1)

  -- What follows the upload: the status, and then the answer.
  abbrev pub stored : Generation → Outside → Option Generation × AiStore → Generation × AiStore
  stored g o (some f, w) = (f, w)
  stored g o (none, w) = abandon g (object_name g.id) o w

  abbrev pub raised : Generation → Error → Outside → AiStore → Option AiStickerReason → Answer
  raised g e o w none = (err e, w)
  raised g e o w (some reason) = let out = fail_job g reason o w in (ok out.0, out.1)

  abbrev pub drawn : Generation → Outside → AiStore → Result Text → Answer
  drawn g o w (err e) = raised g e o w (sticker_reason e)
  drawn g o w (ok png) =
      let out =
        if o.put_fails
        then fail_job g storage_failed o w
        else stored g o (
            finish_in g (success g o.later) o.later
              (record w { objects = insert (object_name g.id) png w.objects })) in
      (ok out.0, out.1)

  -- `_run`
  unfoldable pub run : Generation → Characters → Outside → AiStore → Answer
  run g prompt o w = drawn g o w (o.provider prompt)

  abbrev pub retried : Generation → Outside → Option Text × AiStore → Generation × AiStore
  retried g o (none, w) = (g, w)
  retried g o (some entry, w) =
      let out = finish_in g (late_refund g entry) o.later w in (or_else out.0 g, out.1)

  -- `_retry_refund`
  unfoldable pub retry_refund : Generation → Outside → AiStore → Generation × AiStore
  retry_refund g o w = retried g o (refund_job g o w)

  abbrev pub swept : Text → Outside → Generation × AiStore → Generation × AiStore
  swept name o (g, w) = (g, if is_refunded g.status then sweep_orphan name o w else w)

  abbrev pub recovered : Generation → Outside → AiStore → Generation × AiStore
  recovered g o w =
      let name = object_name g.id in
      if o.exists_fails
      then (g, w)
      else if contains name w.objects
      then or_current g (finish_in g (success g o.later) o.later w)
      else swept name o (fail_job g interrupted o w)

  abbrev pub reconciled : Generation → Outside → AiStore → Option Generation → Generation × AiStore
  reconciled g o w none = (current_of w g, w)
  reconciled g o w (some stolen) = recovered stolen o w

  -- `reconcile`
  unfoldable pub reconcile : Generation → Outside → AiStore → Generation × AiStore
  reconcile g o w =
      let out = steal_expired g.id o.now w.generations in
      reconciled g o (record w { generations = out.1 }) out.0

  -- `_resume`
  unfoldable pub resume : Generation → Outside → AiStore → Generation × AiStore
  resume g o w =
      if not (is_pending g.status)
      then if is_failed g.status then retry_refund g o w else (g, w)
      else if not (is_recoverable g o.now)
      then (g, w)
      else reconcile g o w

  abbrev pub resumed : Generation → Outside → AiStore → Answer
  resumed g o w = let out = resume g o w in (ok out.0, out.1)

  -- The debit of a new job: without shards the job is closed, and any other failure is passed on.
  abbrev pub paid :
      Generation → Characters → Outside → AiStore → Result ShardMutationResult × ShardStore → Answer
  paid g prompt o w (ok _, s) = run g prompt o (record w { shards = s })
  paid g prompt o w (err e, s) =
      let w' = record w { shards = s } in
      if is_insufficient e
      then (err (ai_sticker_error no_shards), (finish_in g (unpaid g) o.now w').1)
      else (err e, w')

  abbrev pub begun : Characters → Outside → AiStore → Generation × Bool → Answer
  begun prompt o w (g, false) = resumed g o w
  begun prompt o w (g, true) =
      paid g prompt o w
        (debit c.sha256 g.user_id c.price ai_sticker (some g.id) o.debit_line o.now w.shards)

  -- From the new document on, whatever another call has made in between.
  unfoldable pub begin : Text → Text → Characters → Outside → AiStore → Answer
  begin u id prompt o w =
      let out = create_pending (leased (new_generation id u c.price o.now) o.now) w.generations in
      begun prompt o (record w { generations = out.1 }) out.0

  abbrev pub begin_if : Text → Text → Outside → AiStore → Result Characters → Answer
  begin_if u id o w (err e) = (err e, w)
  begin_if u id o w (ok prompt) =
      if not is_available then (err (ai_sticker_error not_configured), w) else begin u id prompt o w

  abbrev pub resume_or : Text → Text → Characters → Outside → AiStore → Option Generation → Answer
  resume_or u id raw o w (some existing) = resumed existing o w
  resume_or u id raw o w none = begin_if u id o w (normalize_prompt c.is_space c.is_hidden raw)

  -- `generation_id(user_id, request_id)`
  abbrev pub identifier : Text → Characters → Text
  identifier u request = generation_id c.sha256 u (c.encode request)

  abbrev pub requested : Text → Characters → Outside → AiStore → Result Characters → Answer
  requested u raw o w (err e) = (err e, w)
  requested u raw o w (ok request) =
      resume_or u (identifier u request) raw o w (get (identifier u request) w.generations)

  -- `generate`
  unfoldable pub generate : Text → Characters → Characters → Outside → AiStore → Answer
  generate u request raw o w = requested u raw o w (checked_request_id c.is_space request)

  -- The loop of `sweep`, with the jobs recovered so far. Nothing that it calls raises here.
  unfoldable pub sweep_each : List Generation → ℕ → Outside → AiStore → ℕ × AiStore
  sweep_each [] n o w = (n, w)
  sweep_each (g ∷ gs) n o w =
      let due = is_recoverable g o.now in
      sweep_each gs (if due then n + 1 else n) o (if due then (reconcile g o w).1 else w)

  -- `sweep`
  unfoldable pub sweep : Text → Outside → AiStore → ℕ × AiStore
  sweep u o w = sweep_each (stale_pending u 10 w.generations) 0 o w

  abbrev pub status_of : Text → Outside → AiStore → Option Generation → Answer
  status_of u o w none = (err (ai_sticker_error not_found), w)
  status_of u o w (some g) =
      if not (g.user_id == u) then (err (ai_sticker_error not_found), w) else resumed g o w

  -- `status`
  unfoldable pub status : Text → Text → Outside → AiStore → Answer
  status u id o w = status_of u o w (get id w.generations)

  -- `result`
  unfoldable pub result : Text → Text → Outside → AiStore → Result Text × AiStore
  result u id o w = image_if id o (status u id o w)
