-- ===== src/Ai/Results.antt =====
-- Who gets an image, and what a repeated request does (app/ai/service.py: `generate`, `status`,
-- `result`).
use ggumirror_be.Base.{
  ℕ, ◌+◌, ◌<◌, ◌≡◌, refl, ap, inl, inr, true, false, Option, none, some, arith, Bool-cases,
}
use ggumirror_be.Base.Int.{◌≤ℤ◌}
use ggumirror_be.Base.Text.{Text, text_eq, text_eqb_iff, ◌==◌}
use ggumirror_be.Base.Dict.{get}
use ggumirror_be.Base.Exec.{Result, ok, err, ai_sticker_error, not_found}
use ggumirror_be.Ai.Models.{
  Generation, succeeded, is_terminal, is_result_available, result_retention,
}
use ggumirror_be.Ai.Prompt.{Characters, checked_request_id}
use ggumirror_be.Ai.Store.{object_name, finished, leased}
use ggumirror_be.Ai.Service.{AiStore, AiStickerService, Outside, Answer, success, new_generation}
use ggumirror_be.Shards.Ledger.{balance_of}
use ggumirror_be.Ai.Generate.{IsNew, finished_job, generate_draws}
use ggumirror_be.Ai.Jobs.{
  identifier, generate, resume, status, status_of, result, image_of, image_if, object_or,
}

pub resume_ended :
    (c : AiStickerService) (g : Generation) (o : Outside) (w : AiStore)
    → is_terminal g.status ≡ true
    → resume c g o w ≡ (g, w)
unfolding resume is_terminal
resume_ended c g o w h = ground arith

-- A request with an id that passes the check, whose job has succeeded or has been refunded, answers
-- that job again and changes nothing, with any prompt, whatever the provider and the storage would
-- answer, and whether or not the service is switched on.
pub generate_again :
    (c : AiStickerService) (u : Text) (request raw r : Characters) (g : Generation) (o : Outside)
    (w : AiStore)
    → checked_request_id c.is_space request ≡ ok r
    → get (identifier c u r) w.generations ≡ some g
    → is_terminal g.status ≡ true
    → generate c u request raw o w ≡ (ok g, w)
unfolding generate
generate_again c u request raw r g o w e there ended =
    rw e (rw there (rw (resume_ended c g o w ended) refl))

-- Another user's job is answered as a job that is not there, by the status and by the image, and
-- nothing changes.
pub status_hidden :
    (c : AiStickerService) (u id : Text) (g : Generation) (o : Outside) (w : AiStore)
    → get id w.generations ≡ some g
    → (g.user_id == u) ≡ false
    → (status c u id o w ≡ (err (ai_sticker_error not_found), w))
      × (result c u id o w ≡ (err (ai_sticker_error not_found), w))
unfolding status result
status_hidden c u id g o w there other = (rw there (rw other refl), rw there (rw other refl))

-- What an answer with an image says of the job that it answers for.
abbrev pub Shows : Text → Answer → Outside → Text → Type 0
Shows id (err e, w) o png = ⊥
Shows id (ok g, w) o png =
    (g.status ≡ succeeded)
    × (is_result_available g o.later ≡ true)
    × (get (object_or g.result_object (object_name id)) w.objects ≡ some png)

image_if-Shows :
    (id png : Text) (out : Answer) (o : Outside)
    → (image_if id o out).0 ≡ ok png
    → Shows id out o png
unfolding image_of
image_if-Shows id png (err e, w) o h = ground arith
image_if-Shows id png (ok g, w) o h = ground arith

shown-owner :
    (c : AiStickerService) (u id png : Text) (o : Outside) (w : AiStore) (found : Option Generation)
    → (image_if id o (status_of c u o w found)).0 ≡ ok png
    → (g : Generation) × (found ≡ some g) × (g.user_id ≡ u)
shown-owner c u id png o w none h = ground arith
shown-owner c u id png o w (some g) h = elim (Bool-cases (g.user_id == u)) [
  | inl own ↦ (g, refl, (text_eqb_iff g.user_id u).0 own)
  | inr other ↦ absurd (refused other h)
]
  where
    refused : (g.user_id == u) ≡ false → (image_if id o (status_of c u o w (some g))).0 ≡ ok png → ⊥
    refused other = rw other (λ k. cc)

-- An image is answered only to the user of the job, only where the job that the status answers has
-- succeeded and is kept, and it is the image that the storage holds for it.
pub result-Shows :
    (c : AiStickerService) (u id png : Text) (o : Outside) (w : AiStore)
    → (result c u id o w).0 ≡ ok png
    → ((g : Generation) × (get id w.generations ≡ some g) × (g.user_id ≡ u))
      × Shows id (status c u id o w) o png
unfolding result status
result-Shows c u id png o w h = (
  shown-owner c u id png o w (get id w.generations) h,
  image_if-Shows id png (status_of c u o w (get id w.generations)) o h,
)

object_or-name : (id : Text) → object_or (some (object_name id)) (object_name id) ≡ object_name id
unfolding object_name
object_or-name id = refl

kept_image :
    (id png : Text) (o : Outside) (g : Generation) (w : AiStore) (t : ℕ)
    → g.status ≡ succeeded
    → g.result_object ≡ some (object_name id)
    → g.result_expires_at ≡ some t
    → o.later < t
    → get (object_name id) w.objects ≡ some png
    → image_of id o g w ≡ ok png
unfolding image_of is_result_available
kept_image id png o g w t done object expires soon there = ground (arith, object_or-name id)

-- The job of another call, seen by its user.
own_result :
    (c : AiStickerService) (u id png : Text) (o : Outside) (g : Generation) (w : AiStore)
    → get id w.generations ≡ some g
    → g.user_id ≡ u
    → is_terminal g.status ≡ true
    → image_of id o g w ≡ ok png
    → result c u id o w ≡ (ok png, w)
unfolding result status
own_result c u id png o g w there own ended image =
    let mine : (g.user_id == u) ≡ true = (text_eqb_iff g.user_id u).1 own in
    rw there (rw mine (rw (resume_ended c g o w ended) (ap (λ (r : Result Text). (r, w)) image)))

-- A new request that the balance can pay, with a drawing that is stored, can be fetched by its user
-- with nothing more to pay, by any call in the seven days that the image is kept.
pub drawn_result :
    (c : AiStickerService) (u : Text) (request raw : Characters) (o o' : Outside) (w : AiStore)
    (r prompt : Characters) (png : Text)
    → IsNew c u request raw o w r prompt
    → c.price ≤ℤ balance_of w.shards u
    → o.provider prompt ≡ ok png
    → o.put_fails ≡ false
    → o'.later < o.later + result_retention
    → let w' = (generate c u request raw o w).1 in
      result c u (identifier c u r) o' w' ≡ (ok png, w')
unfolding finished success leased new_generation is_terminal
drawn_result c u request raw o o' w r prompt png h enough drew stores soon =
    let w' = (generate c u request raw o w).1 in
    let g = finished_job c u request raw o w r prompt in
    let (answered, done, there, image, paid) =
      generate_draws c u request raw o w r prompt png h enough drew stores in
    own_result c u (identifier c u r) png o' g w' there refl refl (
      kept_image (identifier c u r) png o' g w' (o.later + result_retention) done refl refl soon
        image)
