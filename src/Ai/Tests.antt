-- ===== src/Ai/Tests.antt =====
-- The theorems on stickers at a concrete service and store.
use ggumirror_be.Base.{
  ◌≤◌, ◌≡◌, ◌↔◌, refl, inl, true, false, none, some, List, [], ◌∷◌, arith, nat_eqb, ltb,
}
use ggumirror_be.Base.Int.{pos, ◌+ℤ◌}
use ggumirror_be.Base.Text.{Text, codes, text_eqb, text_eq}
use ggumirror_be.Base.Dict.{get, insert, contains}
use ggumirror_be.Base.Exec.{
  ok, err, ai_sticker_error, provider_rejected, provider_unavailable, interrupted,
}
use ggumirror_be.Canonical.{canonical, part, rest_parts, length, decimal, digits}
use ggumirror_be.Shards.Models.{reason_value, empty_wallet}
use ggumirror_be.Shards.Keys.{idempotency_hash}
use ggumirror_be.Shards.Store.{
  wallet, apply, apply_new, write_change, changed_entry, changed_wallet, new_entry, moved_wallet,
  already_applied, quota_full, claim_conflict,
}
use ggumirror_be.Shards.Ledger.{balance_of}
use ggumirror_be.Shards.Tests.{plain, alice, granted, granted-IsSound, granted-IsIndexed}
use ggumirror_be.Ai.Models.{
  Generation, pending, succeeded, refunded, is_terminal, can_transition, is_lease_expired,
  is_result_available, generation_id, refund_event_id,
}
use ggumirror_be.Ai.Prompt.{
  Characters, normalize_prompt, checked_request_id, left_strip, right_strip, any,
}
use ggumirror_be.Ai.Store.{Finish, finish, steal_expired, stolen, object_name, leased}
use ggumirror_be.Ai.Service.{AiStore, AiStickerService, Outside, new_generation}
use ggumirror_be.Ai.Jobs.{
  is_available, identifier, generate, result, image_of, status, resume, reconcile, fail_job,
}
use ggumirror_be.Ai.Transitions.{
  Arrow, StoreCall, finish_with, steal, run_calls, finishes, can_transition_iff, finishes_bounded,
  terminal_absorbs,
}
use ggumirror_be.Ai.Leases.{late_finish_refused}
use ggumirror_be.Ai.Refunds.{CanRefund}
use ggumirror_be.Ai.Recovery.{late_fail_pays, Settled, reconcile_settles}
use ggumirror_be.Ai.Generate.{IsNew, failed_job, generate_refunds}
use ggumirror_be.Ai.Books.{generate_call, sweep_call, serve_all, serve_all-IsBooked}
use ggumirror_be.Ai.Lines.{IsBooked}
use ggumirror_be.Ai.Made.{AllMade}
use ggumirror_be.Ai.Results.{generate_again, drawn_result, Shows, result-Shows}

abbrev stickers : AiStickerService
stickers = record {
  price = pos 5;
  provider_configured = true;
  storage_configured = true;
  sha256 = plain;
  encode = plain;
  is_space = λ n. nat_eqb n 32;
  is_hidden = λ n. ltb n 32;
}

-- A day on which everything answers.
abbrev pub fine : Outside
fine = record {
  now = 1_000;
  later = 2_000;
  debit_line = codes "e2";
  refund_line = codes "e3";
  provider = λ p. ok (codes "png");
  put_fails = false;
  exists_fails = false;
  delete_fails = false;
  sweep_fails = false;
  refund_fails = false;
}

abbrev desk : AiStore
desk = record { generations = []; objects = []; shards = granted }

abbrev request : Characters
request = codes " r1 "

abbrev pub typed : Characters
typed = codes "  a  cat "

-- A job of alice's that is being drawn.
abbrev job : Generation
job = record {
  id = codes "g1";
  user_id = alice;
  status = pending;
  price = pos 5;
  created_at = 10;
  updated_at = 10;
  lease_expires_at = some 310;
  debit_entry_id = some (codes "g1");
  refund_entry_id = none;
  result_object = none;
  result_expires_at = none;
  failure_reason = none;
}

abbrev ended : Generation
ended = record job { status = succeeded; lease_expires_at = none }

abbrev late : Finish
late = record {
  expected_lease = some 310;
  status = refunded;
  result_object = none;
  result_expires_at = none;
  failure_reason = some interrupted;
  refund_entry_id = none;
}

abbrev calls : List StoreCall
calls = steal (codes "g1") 1_000 ∷ finish_with (codes "g1") late 1_001 ∷ []

can_transition_iff_example : (can_transition pending refunded ≡ true) ↔ Arrow pending refunded
can_transition_iff_example = can_transition_iff pending refunded

finishes_bounded_example : finishes (codes "g1") calls ((codes "g1", job) ∷ []) ≤ 2
finishes_bounded_example = finishes_bounded (codes "g1") calls ((codes "g1", job) ∷ [])

terminal_absorbs_example :
    get (codes "g1") (run_calls calls ((codes "g1", ended) ∷ [])) ≡ some ended
unfolding get text_eqb is_terminal
terminal_absorbs_example =
    terminal_absorbs (codes "g1") calls ((codes "g1", ended) ∷ []) ended refl refl

late_finish_refused_example :
    let d = run_calls [] (steal_expired (codes "g1") 400 ((codes "g1", job) ∷ [])).1 in
    finish (codes "g1") late 500 d ≡ (none, d)
unfolding get text_eqb steal_expired is_lease_expired
late_finish_refused_example =
    late_finish_refused (codes "g1") 400 310 500 job (stolen job 400) ((codes "g1", job) ∷ []) []
      late refl refl refl tt refl

abbrev waiting : AiStore
waiting = record desk { generations = (codes "g1", job) ∷ [] }

job-CanRefund : CanRefund stickers job fine waiting
unfolding apply apply_new claim_conflict already_applied quota_full get wallet empty_wallet ◌+ℤ◌
    write_change changed_wallet changed_entry moved_wallet new_entry insert balance_of
    idempotency_hash canonical part rest_parts length decimal digits reason_value text_eqb
    refund_event_id
job-CanRefund = record {
  sound = granted-IsSound;
  amount = record { positive = omega arith; bounded = omega arith };
  answers = refl;
  new = refl;
}

reconcile_settles_example :
    Settled stickers job fine waiting
      (contains (object_name job.id) waiting.objects)
      (reconcile stickers job fine waiting)
unfolding get text_eqb is_lease_expired
reconcile_settles_example =
    reconcile_settles stickers job fine waiting
      (record { stands = refl; free = refl; answers = refl; refund = job-CanRefund })

abbrev settled : AiStore
settled = record desk { generations = (codes "g1", ended) ∷ [] }

late_fail_pays_example :
    let (answer, w) = fail_job stickers job provider_unavailable fine settled in
    (answer ≡ ended)
    × (w.generations ≡ settled.generations)
    × (balance_of w.shards alice ≡ balance_of granted alice +ℤ pos 5)
unfolding get text_eqb is_terminal
late_fail_pays_example =
    late_fail_pays stickers job ended provider_unavailable fine settled
      (record {
        sound = job-CanRefund.sound;
        amount = job-CanRefund.amount;
        answers = job-CanRefund.answers;
        new = job-CanRefund.new;
      })
      refl refl

desk-IsNew : IsNew stickers alice request typed fine desk (codes "r1") (codes "a cat")
unfolding apply apply_new claim_conflict already_applied quota_full get wallet empty_wallet ◌+ℤ◌
    write_change changed_wallet changed_entry moved_wallet new_entry insert balance_of
    idempotency_hash canonical part rest_parts length decimal digits reason_value text_eqb
    generation_id checked_request_id left_strip right_strip any normalize_prompt is_available
desk-IsNew = record {
  asked = record { checked = refl; normal = refl; available = refl };
  sound = granted-IsSound;
  amount = record { positive = omega arith; bounded = omega arith };
  named = λ e. cc;
  fresh = refl;
  undebited = refl;
}

abbrev id : Text
id = identifier stickers alice (codes "r1")

abbrev pub refused : Outside
refused = record fine { provider = λ p. err (ai_sticker_error provider_rejected) }

refused-IsNew : IsNew stickers alice request typed refused desk (codes "r1") (codes "a cat")
refused-IsNew = record {
  asked = record {
    checked = desk-IsNew.asked.checked;
    normal = desk-IsNew.asked.normal;
    available = desk-IsNew.asked.available;
  };
  sound = granted-IsSound;
  amount = desk-IsNew.amount;
  named = desk-IsNew.named;
  fresh = desk-IsNew.fresh;
  undebited = desk-IsNew.undebited;
}

generate_refunds_example :
    let g =
      failed_job stickers alice request typed refused desk
        (codes "r1")
        (codes "a cat")
        provider_rejected in
    let (answer, w) = generate stickers alice request typed refused desk in
    (answer ≡ ok g)
    × (g.status ≡ refunded)
    × (get id w.generations ≡ some g)
    × (balance_of w.shards alice ≡ balance_of granted alice)
unfolding apply apply_new claim_conflict already_applied quota_full get wallet empty_wallet ◌+ℤ◌
    write_change changed_wallet changed_entry moved_wallet new_entry insert balance_of
    idempotency_hash canonical part rest_parts length decimal digits reason_value text_eqb
    generation_id refund_event_id leased new_generation
generate_refunds_example =
    generate_refunds stickers alice request typed refused desk (codes "r1") (codes "a cat")
      provider_rejected refused-IsNew (omega arith) (λ a b e. e) (inl refl) refl refl

drawn_result_example :
    let w = (generate stickers alice request typed fine desk).1 in
    result stickers alice id fine w ≡ (ok (codes "png"), w)
unfolding apply apply_new claim_conflict already_applied quota_full get wallet empty_wallet ◌+ℤ◌
    write_change changed_wallet changed_entry moved_wallet new_entry insert balance_of text_eqb
drawn_result_example =
    drawn_result stickers alice request typed fine fine desk (codes "r1") (codes "a cat")
      (codes "png") desk-IsNew (omega arith) refl refl (omega arith)

generate_again_example :
    let w = record desk { generations = (id, ended) ∷ [] } in
    generate stickers alice request [] refused w ≡ (ok ended, w)
unfolding get text_eqb is_terminal checked_request_id left_strip right_strip any generation_id
    canonical part rest_parts length decimal digits
generate_again_example =
    generate_again stickers alice request [] (codes "r1") ended refused
      (record desk { generations = (id, ended) ∷ [] }) refl refl refl

abbrev kept : AiStore
kept = record settled {
  generations =
      (
        codes "g1",
        record ended { result_object = some (codes "o1"); result_expires_at = some 3_000 },
      )
      ∷ [];
  objects = (codes "o1", codes "png") ∷ [];
}

result-Shows_example :
    ((g : Generation) × (get (codes "g1") kept.generations ≡ some g) × (g.user_id ≡ alice))
    × Shows (codes "g1") (status stickers alice (codes "g1") fine kept) fine (codes "png")
unfolding result status resume image_of is_result_available get text_eqb
result-Shows_example = result-Shows stickers alice (codes "g1") (codes "png") fine kept refl

serve_all-IsBooked_example :
    IsBooked stickers desk.shards.entries
      (serve_all stickers
        ((generate_call alice request typed, refused) ∷ (sweep_call alice, fine) ∷ [])
        desk).shards
unfolding AllMade
serve_all-IsBooked_example =
    serve_all-IsBooked stickers
      ((generate_call alice request typed, refused) ∷ (sweep_call alice, fine) ∷ []) desk
      granted-IsSound granted-IsIndexed tt
