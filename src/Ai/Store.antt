-- ===== src/Ai/Store.antt =====
-- app/ai/store.py, `InMemoryGenerationStore`: each method runs under the lock, so a call is a step.
-- app/ai/storage.py, `InMemoryGenerationStorage`: the bucket of drawn images.
use ggumirror_be.Base.{
  ℕ, zero, suc, ◌+◌, Bool, true, false, not, ◌&&◌, Option, none, some, List, [], ◌∷◌, ◌++◌, nat_eqb,
  if◌then◌else◌,
}
use ggumirror_be.Base.Text.{Text, codes, text_eq, ◌==◌}
use ggumirror_be.Base.Dict.{Dict, get, insert, values}
use ggumirror_be.Base.Exec.{AiStickerReason}
use ggumirror_be.Ai.Models.{
  Generation, GenerationStatus, pending, is_pending, can_transition, is_lease_expired,
  generation_lease,
}

abbrev pub Generations : Type 0
Generations = Dict Text Generation

abbrev pub had_or_made :
    Option Generation → Generation → Generations → (Generation × Bool) × Generations
had_or_made (some existing) g d = ((existing, false), d)
had_or_made none g d = ((g, true), insert g.id g d)

unfoldable pub create_pending : Generation → Generations → (Generation × Bool) × Generations
create_pending g d = had_or_made (get g.id d) g d

-- What a call of `finish` gives beside the id.
pub record Finish : Type 0 where
  pub expected_lease : Option ℕ
  pub status : GenerationStatus
  pub result_object : Option Text
  pub result_expires_at : Option ℕ
  pub failure_reason : Option AiStickerReason
  pub refund_entry_id : Option Text

abbrev pub lease_eqb : Option ℕ → Option ℕ → Bool
lease_eqb none none = true
lease_eqb (some a) (some b) = nat_eqb a b
lease_eqb _ _ = false

-- `a or b`, where an empty text is false
abbrev pub or_text : Option Text → Option Text → Option Text
or_text (some (c ∷ t)) b = some (c ∷ t)
or_text _ b = b

unfoldable pub finished : Generation → Finish → ℕ → Generation
finished g f now = record {
  id = g.id;
  user_id = g.user_id;
  status = f.status;
  price = g.price;
  created_at = g.created_at;
  updated_at = now;
  lease_expires_at = none;
  debit_entry_id = g.debit_entry_id;
  refund_entry_id = or_text f.refund_entry_id g.refund_entry_id;
  result_object = f.result_object;
  result_expires_at = f.result_expires_at;
  failure_reason = f.failure_reason;
}

abbrev pub finish_found :
    Option Generation → Text → Finish → ℕ → Generations → Option Generation × Generations
finish_found none id f now d = (none, d)
finish_found (some g) id f now d =
    if not (can_transition g.status f.status)
    then (none, d)
    else if not (lease_eqb g.lease_expires_at f.expected_lease)
    then (none, d)
    else (some (finished g f now), insert id (finished g f now) d)

unfoldable pub finish : Text → Finish → ℕ → Generations → Option Generation × Generations
finish id f now d = finish_found (get id d) id f now d

unfoldable pub stolen : Generation → ℕ → Generation
stolen g now = record g {
  status = pending;
  updated_at = now;
  lease_expires_at = some (now + generation_lease);
}

abbrev pub steal_found :
    Option Generation → Text → ℕ → Generations → Option Generation × Generations
steal_found none id now d = (none, d)
steal_found (some g) id now d =
    if not (is_lease_expired g now)
    then (none, d)
    else (some (stolen g now), insert id (stolen g now) d)

unfoldable pub steal_expired : Text → ℕ → Generations → Option Generation × Generations
steal_expired id now d = steal_found (get id d) id now d

unfoldable pub pending_of : Text → List Generation → List Generation
pending_of u [] = []
pending_of u (g ∷ gs) =
    let rest = pending_of u gs in if g.user_id == u && is_pending g.status then g ∷ rest else rest

unfoldable pub take : {A : Type 0} → List A → ℕ → List A
take [] n = []
take (x ∷ xs) zero = []
take (x ∷ xs) (suc n) = x ∷ take xs n

unfoldable pub stale_pending : Text → ℕ → Generations → List Generation
stale_pending u limit d = take (pending_of u (values d)) limit

-- `leased`: a new job, in the hands of the call that makes it
unfoldable pub leased : Generation → ℕ → Generation
leased g now = record {
  id = g.id;
  user_id = g.user_id;
  status = pending;
  price = g.price;
  created_at = now;
  updated_at = now;
  lease_expires_at = some (now + generation_lease);
  debit_entry_id = g.debit_entry_id;
  refund_entry_id = none;
  result_object = none;
  result_expires_at = none;
  failure_reason = none;
}

-- `object_name`
unfoldable pub object_name : Text → Text
object_name id = codes "ai/stickers/" ++ id ++ codes ".png"
