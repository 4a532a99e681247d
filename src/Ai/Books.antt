-- ===== src/Ai/Books.antt =====
-- The ledger under the methods of `AIStickerService` (app/ai/service.py), whatever they answer.
use ggumirror_be.Base.{
  ℕ, refl, inl, inr, Bool, true, false, not, Option, none, some, List, [], ◌∷◌, if-all,
}
use ggumirror_be.Base.Text.{Text, text_eq, ◌==◌}
use ggumirror_be.Base.Dict.{get}
use ggumirror_be.Base.Exec.{Result, ok, err, Result-cases}
use ggumirror_be.Shards.Models.{ShardMutationResult, ShardLedgerEntry}
use ggumirror_be.Shards.Store.{ShardStore}
use ggumirror_be.Shards.Ledger.{IsSound}
use ggumirror_be.Shards.Once.{IsIndexed}
use ggumirror_be.Ai.Lines.{IsBooked, AllJobLines, debit-IsBooked, append_nil}
use ggumirror_be.Ai.Made.{IsMade, AllMade, FoundMade, get-FoundMade, create_pending-AllMade}
use ggumirror_be.Ai.Models.{Generation, is_recoverable}
use ggumirror_be.Ai.Prompt.{Characters, normalize_prompt, checked_request_id}
use ggumirror_be.Ai.Store.{create_pending, stale_pending, leased}
use ggumirror_be.Ai.Service.{
  AiStore, AiStickerService, Outside, Answer, is_insufficient, unpaid, new_generation,
}
use ggumirror_be.Ai.Jobs.{
  is_available, identifier, paid, begun, begin, begin_if, resume_or, generate, sweep_each, sweep,
  status_of, status, image_if, result,
}
use ggumirror_be.Ai.JobBooks.{Booked, Kept, resume-Kept, finish_in-Kept, run-Kept, reconcile-Kept}

-- One call of the service, with what the outside answers to it.
pub data AiCall : Type 0 where
  generate_call : Text → Characters → Characters → AiCall
  status_call : Text → Text → AiCall
  result_call : Text → Text → AiCall
  sweep_call : Text → AiCall

unfoldable pub serve : AiStickerService → AiCall → Outside → AiStore → AiStore
serve c (generate_call u request raw) o w = (generate c u request raw o w).1
serve c (status_call u id) o w = (status c u id o w).1
serve c (result_call u id) o w = (result c u id o w).1
serve c (sweep_call u) o w = (sweep c u o w).1

unfoldable pub serve_all : AiStickerService → List (AiCall × Outside) → AiStore → AiStore
serve_all c [] w = w
serve_all c ((call, o) ∷ calls) w = serve_all c calls (serve c call o w)

module _ (c : AiStickerService) (base : List ShardLedgerEntry) where
  module _ (o : Outside) where
    paid-Kept :
        (g : Generation) (prompt : Characters) (w : AiStore)
        (out : Result ShardMutationResult × ShardStore)
        → IsMade c g
        → AllMade c w.generations
        → IsBooked c base out.1
        → Kept c base (paid c g prompt o w out)
    paid-Kept g prompt w (ok r, s) p d h =
        run-Kept c base o g prompt (record w { shards = s }) p (h, d)
    paid-Kept g prompt w (err e, s) p d h =
        if-all {A = Answer} (Kept c base) (is_insufficient e) _ _
          (finish_in-Kept c base o g (unpaid g) o.now (record w { shards = s }) (h, d)) (h, d)

    begun-Kept :
        (prompt : Characters) (w : AiStore) (out : Generation × Bool)
        → IsMade c out.0
        → Booked c base w
        → Kept c base (begun c prompt o w out)
    begun-Kept prompt w (g, false) p h = resume-Kept c base o g w p h
    begun-Kept prompt w (g, true) p h =
        paid-Kept g prompt w _ p h.1 (debit-IsBooked c base g o.debit_line o.now w.shards p h.0)

    leased-IsMade :
        (u : Text) (request : Characters)
        → IsMade c (leased (new_generation (identifier c u request) u c.price o.now) o.now)
    unfolding leased new_generation
    leased-IsMade u request = (refl, (c.encode request, refl))

    begin-Kept :
        (u : Text) (request : Characters) (w : AiStore) (prompt : Characters)
        → Booked c base w
        → Kept c base (begin c u (identifier c u request) prompt o w)
    unfolding begin
    begin-Kept u request w prompt h =
        let job = leased (new_generation (identifier c u request) u c.price o.now) o.now in
        let made = create_pending-AllMade c job w.generations (leased-IsMade u request) h.1 in
        begun-Kept prompt _ (create_pending job w.generations).0 made.0 (h.0, made.1)

    begin_if-Kept :
        (u : Text) (request : Characters) (w : AiStore) (prompt : Result Characters)
        → Booked c base w
        → Kept c base (begin_if c u (identifier c u request) o w prompt)
    begin_if-Kept u request w (err e) h = h
    begin_if-Kept u request w (ok prompt) h =
        if-all {A = Answer} (Kept c base) (not (is_available c)) _ _ h
          (begin-Kept u request w prompt h)

    resume_or-Kept :
        (u : Text) (request raw : Characters) (w : AiStore) (found : Option Generation)
        → FoundMade c found
        → Booked c base w
        → Kept c base (resume_or c u (identifier c u request) raw o w found)
    resume_or-Kept u request raw w (some g) p h = resume-Kept c base o g w p h
    resume_or-Kept u request raw w none p h =
        begin_if-Kept u request w (normalize_prompt c.is_space c.is_hidden raw) h

    generate-Kept :
        (u : Text) (request raw : Characters) (w : AiStore)
        → Booked c base w
        → Kept c base (generate c u request raw o w)
    unfolding generate
    generate-Kept u request raw w h = elim (Result-cases (checked_request_id c.is_space request)) [
      | inr (x, e) ↦ rw e h
      | inl (r, e) ↦ rw e (
          resume_or-Kept u r raw w (get (identifier c u r) w.generations)
            (get-FoundMade c (identifier c u r) w.generations h.1) h)
    ]

    status_of-Kept :
        (u : Text) (w : AiStore) (found : Option Generation)
        → FoundMade c found
        → Booked c base w
        → Kept c base (status_of c u o w found)
    status_of-Kept u w none p h = h
    status_of-Kept u w (some g) p h =
        if-all {A = Answer} (Kept c base) (not (g.user_id == u)) _ _ h
          (resume-Kept c base o g w p h)

    sweep_each-Kept :
        (gs : List Generation) (n : ℕ) (w : AiStore)
        → Booked c base w
        → Kept c base (sweep_each c gs n o w)
    unfolding sweep_each
    sweep_each-Kept [] n w h = h
    sweep_each-Kept (g ∷ gs) n w h =
        sweep_each-Kept gs _ _
          (if-all (Booked c base) (is_recoverable g o.now) _ _ (reconcile-Kept c base o g w h) h)

  image_if-Kept :
      (id : Text) (o : Outside) (out : Answer) → Kept c base out → Kept c base (image_if id o out)
  image_if-Kept id o (err e, w) h = h
  image_if-Kept id o (ok g, w) h = h

  serve-Booked :
      (call : AiCall) (o : Outside) (w : AiStore)
      → Booked c base w
      → Booked c base (serve c call o w)
  unfolding serve status result sweep
  serve-Booked (generate_call u request raw) o w h = generate-Kept o u request raw w h
  serve-Booked (status_call u id) o w h =
      status_of-Kept o u w (get id w.generations) (get-FoundMade c id w.generations h.1) h
  serve-Booked (result_call u id) o w h =
      image_if-Kept id o _
        (status_of-Kept o u w (get id w.generations) (get-FoundMade c id w.generations h.1) h)
  serve-Booked (sweep_call u) o w h = sweep_each-Kept o (stale_pending u 10 w.generations) 0 w h

  serve_all-Booked :
      (calls : List (AiCall × Outside)) (w : AiStore)
      → Booked c base w
      → Booked c base (serve_all c calls w)
  unfolding serve_all
  serve_all-Booked [] w h = h
  serve_all-Booked ((call, o) ∷ calls) w h =
      serve_all-Booked calls (serve c call o w) (serve-Booked call o w h)

-- Along any sequence of calls of the service, whatever the image service answers and whichever of the
-- calls that `Outside` names fail, on books that balance and have no key on two lines, with jobs that
-- have the service's price and the id of a request of their user: every line that the calls add is a
-- debit of exactly the price, under the debit key of a job of the line's user, or a refund of exactly
-- the price, under the refund key of a job of the line's user; still no key stands on two lines, and
-- the books still balance.
pub serve_all-IsBooked :
    (c : AiStickerService) (calls : List (AiCall × Outside)) (w : AiStore)
    → IsSound w.shards
    → IsIndexed w.shards
    → AllMade c w.generations
    → IsBooked c w.shards.entries (serve_all c calls w).shards
unfolding AllJobLines
serve_all-IsBooked c calls w sound indexed priced =
    (serve_all-Booked c w.shards.entries calls w (
      record { sound = sound; indexed = indexed; lines = ([], append_nil w.shards.entries, tt) },
      priced,
    )).0
