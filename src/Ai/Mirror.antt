-- ===== src/Ai/Mirror.antt =====
-- app/ai/mirror.py, `AIMirrorService`: a picture for a mirror, drawn and answered in one call. What
-- the outside answers is `Outside`, as for stickers; the request id is text.
pub mod Laws
mod Tests
use ggumirror_be.Base.{
  ℕ, Bool, true, false, not, ◌&&◌, some, none, List, [], ◌∷◌, ◌++◌, if◌then◌else◌,
}
use ggumirror_be.Base.Int.{ℤ, pos, ltb_ℤ}
use ggumirror_be.Base.Text.{Text, codes}
use ggumirror_be.Base.Exec.{
  Result, ok, err, ai_sticker_error, not_configured, no_shards, insufficient_shards,
}
use ggumirror_be.Shards.Models.{ai_mirror, refund, ShardMutationResult}
use ggumirror_be.Shards.Store.{ShardStore}
use ggumirror_be.Shards.Service.{credit, debit}
use ggumirror_be.Ai.Models.{generation_id}
use ggumirror_be.Ai.Prompt.{Characters, normalize_prompt}
use ggumirror_be.Ai.Service.{Outside}

abbrev line : Characters → Characters
line t = t ++ 10 ∷ []

-- `MIRROR_PROMPT_TEMPLATE.format(user_prompt=prompt)`
unfoldable pub composed : Characters → Characters
composed prompt =
    line (codes "Create a decorative vertical mirror frame artwork, portrait orientation.")
    ++ line []
    ++ line
        (codes "The design surrounds a large central camera opening that must stay visually empty.")
    ++ line (codes "The opening covers roughly the middle 80% of the width and 83% of the height.")
    ++ line []
    ++ line (codes "Rules:")
    ++ line (codes "- Put decoration around the outer frame and edges.")
    ++ line (codes "- Do not place important objects, faces, or text in the central area.")
    ++ line (codes "- The central area should be plain and uncluttered.")
    ++ line (codes "- No watermarks, no signatures, no UI elements.")
    ++ line []
    ++ line (codes "Style request from the user:")
    ++ line prompt

pub record GeneratedMirror : Type 0 where
  pub operation_id : Text
  pub png : Text
  pub model : Text

-- The service's settings; `has_shards` is whether it was given the ledger.
pub record AiMirrorService : Type 0 where
  pub is_configured : Bool
  pub model : Text
  pub has_shards : Bool
  pub price : ℤ
  pub sha256 : Text → Text
  pub is_space : ℕ → Bool
  pub is_hidden : ℕ → Bool

unfoldable pub mirror_refund_id : Text → Text
mirror_refund_id id = codes "ai_mirror_refund:" ++ id

-- What `_debit` makes of the ledger's answer.
abbrev pub debited : Result ShardMutationResult × ShardStore → Result (Unit {0}) × ShardStore
debited (ok _, s) = (ok tt, s)
debited (err insufficient_shards, s) = (err (ai_sticker_error no_shards), s)
debited (err e, s) = (err e, s)

module _ (c : AiMirrorService) where
  abbrev pub is_paid : Bool
  is_paid = c.has_shards && ltb_ℤ (pos 0) c.price

  -- `_debit`
  unfoldable pub debit_mirror : Text → Text → Outside → ShardStore → Result (Unit {0}) × ShardStore
  debit_mirror u id o s =
      if is_paid
      then debited (debit c.sha256 u c.price ai_mirror (some id) o.debit_line o.now s)
      else (ok tt, s)

  -- `_refund`; an error of the ledger is only logged.
  unfoldable pub refund_mirror : Text → Text → Outside → ShardStore → ShardStore
  refund_mirror u id o s =
      if is_paid && not o.refund_fails
      then (credit c.sha256 u c.price refund (some (mirror_refund_id id)) none none none
          o.refund_line o.later s).1
      else s

  abbrev pub answered :
      Text → Text → Outside → ShardStore → Result Text → Result GeneratedMirror × ShardStore
  answered u id o s (ok png) = (ok (record { operation_id = id; png = png; model = c.model }), s)
  answered u id o s (err e) = (err e, refund_mirror u id o s)

  abbrev pub charged :
      Text
      → Text
      → Characters
      → Outside
      → Result (Unit {0}) × ShardStore
      → Result GeneratedMirror × ShardStore
  charged u id prompt o (err e, s) = (err e, s)
  charged u id prompt o (ok _, s) = answered u id o s (o.provider (composed prompt))

  abbrev pub prompted :
      Text → Text → Outside → ShardStore → Result Characters → Result GeneratedMirror × ShardStore
  prompted u id o s (err e) = (err e, s)
  prompted u id o s (ok prompt) = charged u id prompt o (debit_mirror u id o s)

  -- `generate`
  unfoldable pub generate_mirror :
      Text → Characters → Text → Outside → ShardStore → Result GeneratedMirror × ShardStore
  generate_mirror u raw request o s =
      if not c.is_configured
      then (err (ai_sticker_error not_configured), s)
      else prompted u (generation_id c.sha256 u request) o s
          (normalize_prompt c.is_space c.is_hidden raw)
