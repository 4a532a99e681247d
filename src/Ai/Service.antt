-- ===== src/Ai/Service.antt =====
-- app/ai/service.py: the parts of `AIStickerService` that touch no ledger. The provider's answer and the failures of the storage and
-- of the ledger during a call are arguments of the call, and so are the clock's readings: `now`
-- when it begins and `later` when the provider has answered.
use ggumirror_be.Base.{ℕ, ◌+◌, Bool, true, false, ◌&&◌, Option, none, some, ◌∷◌, if◌then◌else◌}
use ggumirror_be.Base.Int.{ℤ}
use ggumirror_be.Base.Text.{Text, text_eq, ◌==◌}
use ggumirror_be.Base.Dict.{Dict, get, erase, contains}
use ggumirror_be.Base.Exec.{
  AiStickerReason, Error, Result, no_shards, ai_sticker_error, insufficient_shards,
}
use ggumirror_be.Shards.Store.{ShardStore}
use ggumirror_be.Ai.Models.{
  Generation, GenerationStatus, pending, succeeded, failed, refunded, is_succeeded,
  result_retention,
}
use ggumirror_be.Ai.Prompt.{Characters}
use ggumirror_be.Ai.Store.{Generations, Finish, finish, object_name}

-- The stores that the service works on.
pub record AiStore : Type 0 where
  pub generations : Generations
  pub objects : Dict Text Text
  pub shards : ShardStore

-- The service's settings, and the functions of Python that it calls.
pub record AiStickerService : Type 0 where
  pub price : ℤ
  pub provider_configured : Bool
  pub storage_configured : Bool
  pub sha256 : Text → Text
  pub encode : Characters → Text
  pub is_space : ℕ → Bool
  pub is_hidden : ℕ → Bool

-- What the outside answers during a call: the clock, the ids of new ledger lines, the provider, and
-- which calls fail, of those to the storage and the ledger whose failure the code catches.
pub record Outside : Type 0 where
  pub now : ℕ
  pub later : ℕ
  pub debit_line : Text
  pub refund_line : Text
  pub provider : Characters → Result Text
  pub put_fails : Bool
  pub exists_fails : Bool
  pub delete_fails : Bool
  pub sweep_fails : Bool
  pub refund_fails : Bool

abbrev pub Answer : Type 0
Answer = Result Generation × AiStore

abbrev pub or_else : Option Generation → Generation → Generation
or_else none g = g
or_else (some h) g = h

-- `self._store.get(generation.id) or generation`
abbrev pub current_of : AiStore → Generation → Generation
current_of w g = or_else (get g.id w.generations) g

-- `isinstance(error, AIStickerError)` with its reason
abbrev pub sticker_reason : Error → Option AiStickerReason
sticker_reason (ai_sticker_error reason) = some reason
sticker_reason _ = none

abbrev pub is_insufficient : Error → Bool
is_insufficient insufficient_shards = true
is_insufficient _ = false

-- `result_object == name`
abbrev pub is_object : Option Text → Text → Bool
is_object none name = false
is_object (some object) name = object == name

-- `Generation(…)` of `generate`
unfoldable pub new_generation : Text → Text → ℤ → ℕ → Generation
new_generation id u price now = record {
  id = id;
  user_id = u;
  status = pending;
  price = price;
  created_at = now;
  updated_at = now;
  lease_expires_at = none;
  debit_entry_id = some id;
  refund_entry_id = none;
  result_object = none;
  result_expires_at = none;
  failure_reason = none;
}

unfoldable pub success : Generation → ℕ → Finish
success g now = record {
  expected_lease = g.lease_expires_at;
  status = succeeded;
  result_object = some (object_name g.id);
  result_expires_at = some (now + result_retention);
  failure_reason = none;
  refund_entry_id = none;
}

abbrev pub status_for : Option Text → GenerationStatus
status_for (some (c ∷ t)) = refunded
status_for _ = failed

unfoldable pub failure : Generation → AiStickerReason → Option Text → Finish
failure g reason entry = record {
  expected_lease = g.lease_expires_at;
  status = status_for entry;
  result_object = none;
  result_expires_at = none;
  failure_reason = some reason;
  refund_entry_id = entry;
}

-- `REFUNDED` with no ledger line: nothing was debited.
unfoldable pub unpaid : Generation → Finish
unpaid g = record {
  expected_lease = g.lease_expires_at;
  status = refunded;
  result_object = none;
  result_expires_at = none;
  failure_reason = some no_shards;
  refund_entry_id = none;
}

-- A refund made later: the lease is no longer held.
unfoldable pub late_refund : Generation → Text → Finish
late_refund g entry = record {
  expected_lease = none;
  status = refunded;
  result_object = none;
  result_expires_at = none;
  failure_reason = g.failure_reason;
  refund_entry_id = some entry;
}

-- `finish`, on the stores of the service
unfoldable pub finish_in : Generation → Finish → ℕ → AiStore → Option Generation × AiStore
finish_in g f now w =
    let out = finish g.id f now w.generations in (out.0, record w { generations = out.1 })

-- `_abandon`
unfoldable pub abandon : Generation → Text → Outside → AiStore → Generation × AiStore
abandon g name o w =
    let current = current_of w g in
    if is_succeeded current.status && is_object current.result_object name
    then (current, w)
    else (current, if o.delete_fails then w else record w { objects = erase name w.objects })

-- `_sweep_orphan`
unfoldable pub sweep_orphan : Text → Outside → AiStore → AiStore
sweep_orphan name o w =
    if o.sweep_fails
    then w
    else if contains name w.objects
    then record w { objects = erase name w.objects }
    else w

abbrev pub or_current : Generation → Option Generation × AiStore → Generation × AiStore
or_current g (none, w) = (current_of w g, w)
or_current g (some f, w) = (f, w)
