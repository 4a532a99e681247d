-- ===== src/Ai/Generate.antt =====
-- `generate` (app/ai/service.py) for a request that is new: the answers of the provider, and what
-- they cost.
use ggumirror_be.Base.{
  ◌≡◌, ◌≢◌, refl, ap, ◌∙◌, ◌⊎◌, inl, inr, true, false, none, some, [], Bool-cases,
}
use ggumirror_be.Base.Int.{neg, ◌+ℤ◌, ◌≤ℤ◌, int_laws, parts_of_eq}
use ggumirror_be.Base.Text.{Text, text_eq, text_eqb_iff, ◌==◌}
use ggumirror_be.Base.Dict.{get, insert, get-insert_self}
use ggumirror_be.Base.Exec.{AiStickerReason, ok, err, ai_sticker_error, no_shards, storage_failed}
use ggumirror_be.Shards.Models.{ai_sticker, refund}
use ggumirror_be.Shards.Keys.{IsCollisionFree, idempotency_hash, idempotency_hash-injective}
use ggumirror_be.Shards.Store.{ShardStore}
use ggumirror_be.Shards.Service.{debit}
use ggumirror_be.Shards.Ledger.{IsSound, balance_of}
use ggumirror_be.Shards.Payments.{IsAmount, Moves, debit-Pays, debit_short}
use ggumirror_be.Ai.Models.{Generation, succeeded, refunded, can_transition, refund_event_id}
use ggumirror_be.Ai.Prompt.{Characters, normalize_prompt, checked_request_id}
use ggumirror_be.Ai.Store.{create_pending, leased, finished, object_name}
use ggumirror_be.Ai.Service.{
  AiStore, AiStickerService, Outside, new_generation, finish_in, failure, success, unpaid,
}
use ggumirror_be.Ai.Jobs.{is_available, identifier, generate, begin, paid, run, fail_job}
use ggumirror_be.Ai.Refunds.{CanRefund, refund_key, fail_job-Moves, finish_wins, failure-refunded}

module _ (c : AiStickerService) (u : Text) (request raw : Characters) (o : Outside)
    (w : AiStore) where
  -- A request id and a prompt that pass the checks, for a service that is switched on.
  pub record IsRequest (r prompt : Characters) : Type 0 where
    pub checked : checked_request_id c.is_space request ≡ ok r
    pub normal : normalize_prompt c.is_space c.is_hidden raw ≡ ok prompt
    pub available : is_available c ≡ true

  module _ (r prompt : Characters) where
    abbrev pub id : Text
    id = identifier c u r

    abbrev pub debit_key : Text
    debit_key = idempotency_hash c.sha256 u ai_sticker id

    -- The job as it is made.
    abbrev pub job : Generation
    job = leased (new_generation id u c.price o.now) o.now

    -- A request that neither store knows, on books that balance.
    pub record IsNew : Type 0 where
      pub asked : IsRequest r prompt
      pub sound : IsSound w.shards
      pub amount : IsAmount c.price
      pub named : id ≢ []
      pub fresh : get id w.generations ≡ none
      pub undebited : get debit_key w.shards.applied ≡ none

    generate-begin : IsNew → generate c u request raw o w ≡ begin c u id prompt o w
    unfolding generate
    generate-begin h =
        rw (h.asked.checked) (rw (h.fresh) (rw (h.asked.normal) (rw (h.asked.available) refl)))

    abbrev begun_store : ShardStore → AiStore
    begun_store s = record w { generations = insert id job w.generations; shards = s }

    created : IsNew → create_pending job w.generations ≡ ((job, true), insert id job w.generations)
    unfolding create_pending leased new_generation
    created h = rw (h.fresh) refl

    begin-paid :
        IsNew
        → begin c u id prompt o w
          ≡ paid c job prompt o
              (record w { generations = insert id job w.generations })
              (debit c.sha256 u c.price ai_sticker (some id) o.debit_line o.now w.shards)
    unfolding begin leased new_generation
    begin-paid h = rw (created h) refl

    job_there : get job.id (insert id job w.generations) ≡ some job
    unfolding leased new_generation
    job_there = get-insert_self id job w.generations

    -- Where the balance has the price, it is taken, and the provider is asked.
    pub generate-run :
        IsNew
        → c.price ≤ℤ balance_of w.shards u
        → (s : ShardStore) × (generate c u request raw o w ≡ run c job prompt o (begun_store s))
          × Moves w.shards s u debit_key (neg c.price)
    generate-run h enough =
        let (s, e, moves) =
          debit-Pays c.sha256 u c.price ai_sticker id o.debit_line o.now w.shards h.sound h.amount
            h.named h.undebited enough in
        let job_store : AiStore = record w { generations = insert id job w.generations } in
        (s, generate-begin h ∙ begin-paid h ∙ ap (paid c job prompt o job_store) e, moves)

    -- Where it has not, the job is closed and nothing is taken.
    pub generate_short :
        IsNew
        → ¬ (c.price ≤ℤ balance_of w.shards u)
        → let (answer, w') = generate c u request raw o w in
          (answer ≡ err (ai_sticker_error no_shards))
          × (w'.shards ≡ w.shards)
          × ((g : Generation) × (get id w'.generations ≡ some g)
              × (g.status ≡ refunded)
              × (g.refund_entry_id ≡ none))
    unfolding finish_in leased new_generation unpaid finished can_transition
    generate_short h short =
        let job_store : AiStore = record w { generations = insert id job w.generations } in
        let refused =
          debit_short c.sha256 u c.price ai_sticker id o.debit_line o.now w.shards h.sound h.amount
            h.named h.undebited short in
        let closed = finished job (unpaid job) o.now in
        let won = finish_wins job (unpaid job) o.now job_store.generations job_there refl refl in
        rw (generate-begin h ∙ begin-paid h ∙ ap (paid c job prompt o job_store) refused)
          (refl, refl, rw won (closed, get-insert_self id closed _, refl, refl))

    abbrev pub finished_job : Generation
    finished_job = finished job (success job o.later) o.later

    abbrev pub failed_job : AiStickerReason → Generation
    failed_job reason = finished job (failure job reason (some (refund_event_id job))) o.later

    -- A new request that the balance can pay, with a drawing that is stored, takes the price once;
    -- the job has succeeded, and its image is in the storage under the job's name.
    pub generate_draws :
        (png : Text)
        → IsNew
        → c.price ≤ℤ balance_of w.shards u
        → o.provider prompt ≡ ok png
        → o.put_fails ≡ false
        → let (answer, w') = generate c u request raw o w in
          (answer ≡ ok finished_job)
          × (finished_job.status ≡ succeeded)
          × (get id w'.generations ≡ some finished_job)
          × (get (object_name id) w'.objects ≡ some png)
          × (balance_of w'.shards u ≡ balance_of w.shards u +ℤ neg c.price)
    unfolding run finish_in leased new_generation success finished can_transition
    generate_draws png h enough drew stores =
        let (s, e, moves) = generate-run h enough in
        let won =
          finish_wins job (success job o.later) o.later (begun_store s).generations job_there refl
            refl in
        rw (e, drew, stores)
          (rw won (
            refl,
            refl,
            get-insert_self id finished_job _,
            get-insert_self _ png w.objects,
            moves.balance,
          ))

    -- No drawing: the provider refuses, or the storage does not take the image.
    abbrev pub Fails : AiStickerReason → Type 0
    Fails reason =
        (o.provider prompt ≡ err (ai_sticker_error reason))
        ⊎ ((png : Text) × (o.provider prompt ≡ ok png)
            × (o.put_fails ≡ true)
            × (reason ≡ storage_failed))

    run-Fails :
        (reason : AiStickerReason) (v : AiStore)
        → Fails reason
        → run c job prompt o v ≡ (ok (fail_job c job reason o v).0, (fail_job c job reason o v).1)
    unfolding run
    run-Fails reason v (inl refused) = rw refused refl
    run-Fails reason v (inr (png, drew, full, why)) = rw (why, drew) (simp full)

    keys_differ : IsCollisionFree c.sha256 → (refund_key c job o w == debit_key) ≡ false
    keys_differ free = elim (Bool-cases (refund_key c job o w == debit_key)) [
      | inr other ↦ other
      | inl same ↦
          let equal = (text_eqb_iff (refund_key c job o w) debit_key).0 same in
          let parts =
            idempotency_hash-injective c.sha256 free job.user_id u refund ai_sticker
              (refund_event_id job) id equal in
          absurd (not_debit parts.1)
    ]
      where
        not_debit : refund ≡ ai_sticker → ⊥
        not_debit e = cc

    after_debit :
        (s : ShardStore)
        → IsNew
        → IsCollisionFree c.sha256
        → o.refund_fails ≡ false
        → get (refund_key c job o w) w.shards.applied ≡ none
        → Moves w.shards s u debit_key (neg c.price)
        → CanRefund c job o (begun_store s)
    unfolding leased new_generation
    after_debit s h free answers unrefunded moves = record {
      sound = moves.sound;
      amount = h.amount;
      answers = answers;
      new = moves.unmarked (refund_key c job o w) (keys_differ free) ∙ unrefunded;
    }

    -- A new request that the balance can pay, on books that balance: where the provider refuses or
    -- the drawing cannot be stored, the job is refunded and the balance is what it was, if the
    -- ledger answers, has not made this refund and the hash has no collision.
    pub generate_refunds :
        (reason : AiStickerReason)
        → IsNew
        → c.price ≤ℤ balance_of w.shards u
        → IsCollisionFree c.sha256
        → Fails reason
        → o.refund_fails ≡ false
        → get (refund_key c job o w) w.shards.applied ≡ none
        → let (answer, w') = generate c u request raw o w in
          (answer ≡ ok (failed_job reason))
          × ((failed_job reason).status ≡ refunded)
          × (get id w'.generations ≡ some (failed_job reason))
          × (balance_of w'.shards u ≡ balance_of w.shards u)
    unfolding leased new_generation finished
    generate_refunds reason h enough free fails answers unrefunded =
        let (s, e, moves) = generate-run h enough in
        let can = after_debit s h free answers unrefunded moves in
        let (s', f, back) = fail_job-Moves c job o (begun_store s) reason can job_there refl in
        rw (e, run-Fails reason (begun_store s) fails, f)
          (
            refl,
            failure-refunded job reason,
            get-insert_self id (failed_job reason) _,
            omega (int_laws, parts_of_eq _ _ back.balance, parts_of_eq _ _ moves.balance),
          )
