-- ===== src/Ai/Models.antt =====
-- app/ai/models.py: the states of a job, the job's record, and its keys.
use ggumirror_be.Base.{
  ℕ, ◌+◌, ◌*◌, Bool, true, false, not, ◌&&◌, Option, none, some, [], ◌∷◌, ◌++◌, leb, ltb,
}
use ggumirror_be.Base.Int.{ℤ, pos}
use ggumirror_be.Base.Text.{Text, codes}
use ggumirror_be.Base.Exec.{AiStickerReason}
use ggumirror_be.Canonical.{canonical}

abbrev pub ai_generation_price : ℤ
ai_generation_price = pos 5

abbrev pub max_prompt_length : ℕ
max_prompt_length = 200

abbrev pub max_request_id_length : ℕ
max_request_id_length = 64

-- Times and spans are in seconds of the server's clock.
abbrev pub result_retention : ℕ
result_retention = 7 * 86_400

abbrev pub generation_lease : ℕ
generation_lease = 300

abbrev pub recovery_grace : ℕ
recovery_grace = 15 * 60

pub data GenerationStatus : Type 0 where
  pending succeeded failed refunded : GenerationStatus

abbrev pub is_pending : GenerationStatus → Bool
is_pending pending = true
is_pending _ = false

abbrev pub is_succeeded : GenerationStatus → Bool
is_succeeded succeeded = true
is_succeeded _ = false

abbrev pub is_failed : GenerationStatus → Bool
is_failed failed = true
is_failed _ = false

abbrev pub is_refunded : GenerationStatus → Bool
is_refunded refunded = true
is_refunded _ = false

unfoldable pub is_terminal : GenerationStatus → Bool
is_terminal succeeded = true
is_terminal refunded = true
is_terminal _ = false

unfoldable pub can_transition : GenerationStatus → GenerationStatus → Bool
can_transition succeeded target = false
can_transition refunded target = false
can_transition failed target = is_refunded target
can_transition pending target = not (is_pending target)

pub record Generation : Type 0 where
  pub id : Text
  pub user_id : Text
  pub status : GenerationStatus
  pub price : ℤ
  pub created_at : ℕ
  pub updated_at : ℕ
  pub lease_expires_at : Option ℕ
  pub debit_entry_id : Option Text
  pub refund_entry_id : Option Text
  pub result_object : Option Text
  pub result_expires_at : Option ℕ
  pub failure_reason : Option AiStickerReason

unfoldable pub generation_id : (Text → Text) → Text → Text → Text
generation_id sha256 u request = sha256 (canonical (u ∷ request ∷ []))

unfoldable pub refund_event_id : Generation → Text
refund_event_id g = codes "ai_sticker_refund:" ++ g.id

-- `time is None or time <= now`
abbrev pub is_past : Option ℕ → ℕ → Bool
is_past none now = true
is_past (some t) now = leb t now

unfoldable pub is_lease_expired : Generation → ℕ → Bool
is_lease_expired g now = is_pending g.status && is_past g.lease_expires_at now

unfoldable pub is_recoverable : Generation → ℕ → Bool
is_recoverable g now = is_pending g.status && leb (g.created_at + recovery_grace) now

abbrev still_kept : Option Text → Option ℕ → ℕ → Bool
still_kept none expires now = false
still_kept (some object) none now = true
still_kept (some object) (some t) now = ltb now t

unfoldable pub is_result_available : Generation → ℕ → Bool
is_result_available g now =
    is_succeeded g.status && still_kept g.result_object g.result_expires_at now
