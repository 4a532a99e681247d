-- ===== src/Shards/Keys.antt =====
-- app/shards/models.py, `idempotency_hash`, over an abstract `sha256` (Python's hashlib).
use ggumirror_be.Base.{◌≡◌, refl, ap, Option, some, List, [], ◌∷◌}
use ggumirror_be.Base.Text.{Text, text_eqb, text_eq}
use ggumirror_be.Base.Dict.{Dict, get}
use ggumirror_be.Canonical.{canonical}
use ggumirror_be.Canonical.Injective.{canonical-injective}
use ggumirror_be.Shards.Models.{
  ShardReason, daily_attendance, rewarded_ad, iap_purchase, ai_sticker, ai_mirror, mirror_purchase,
  mirror_sale, sticker_purchase, sticker_sale, marketplace_moderation_compensation,
  mirror_publish_fee, sticker_publish_fee, refund, iap_refund, iap_refund_reversed,
  mirror_capacity_purchase, catalog_template_purchase, guest_claim, admin_adjustment, reason_value,
}

-- No two texts with one hash are known: what the keys rely on.
abbrev pub IsCollisionFree : (Text → Text) → Type 0
IsCollisionFree hash = (a b : Text) → hash a ≡ hash b → a ≡ b

-- `idempotency_hash`
unfoldable pub idempotency_hash : (Text → Text) → Text → ShardReason → Text → Text
idempotency_hash sha256 u reason event = sha256 (canonical (u ∷ reason_value reason ∷ event ∷ []))

abbrev reasons : List ShardReason
reasons =
    daily_attendance ∷ rewarded_ad ∷ iap_purchase ∷ ai_sticker ∷ ai_mirror ∷ mirror_purchase
    ∷ mirror_sale ∷ sticker_purchase ∷ sticker_sale ∷ marketplace_moderation_compensation
    ∷ mirror_publish_fee ∷ sticker_publish_fee ∷ refund ∷ iap_refund ∷ iap_refund_reversed
    ∷ mirror_capacity_purchase ∷ catalog_template_purchase ∷ guest_claim ∷ admin_adjustment ∷ []

reason_table : List ShardReason → Dict Text ShardReason
reason_table [] = []
reason_table (r ∷ rs) = (reason_value r, r) ∷ reason_table rs

-- `ShardReason(value)`
reason_of : Text → Option ShardReason
reason_of t = get t (reason_table reasons)

reason_of-reason_value : (r : ShardReason) → reason_of (reason_value r) ≡ some r
unfolding reason_of reason_value reason_table get text_eqb
reason_of-reason_value = elim [
  | daily_attendance ↦ refl
  | rewarded_ad ↦ refl
  | iap_purchase ↦ refl
  | ai_sticker ↦ refl
  | ai_mirror ↦ refl
  | mirror_purchase ↦ refl
  | mirror_sale ↦ refl
  | sticker_purchase ↦ refl
  | sticker_sale ↦ refl
  | marketplace_moderation_compensation ↦ refl
  | mirror_publish_fee ↦ refl
  | sticker_publish_fee ↦ refl
  | refund ↦ refl
  | iap_refund ↦ refl
  | iap_refund_reversed ↦ refl
  | mirror_capacity_purchase ↦ refl
  | catalog_template_purchase ↦ refl
  | guest_claim ↦ refl
  | admin_adjustment ↦ refl
]

reason_value-injective : (r t : ShardReason) → reason_value r ≡ reason_value t → r ≡ t
reason_value-injective r t e =
    cc (reason_of-reason_value r, reason_of-reason_value t, ap reason_of e)

-- Where the hash has no collision, one key stands for one user, one reason and one event.
pub idempotency_hash-injective :
    (sha256 : Text → Text)
    → IsCollisionFree sha256
    → (u v : Text) (r t : ShardReason) (e f : Text)
    → idempotency_hash sha256 u r e ≡ idempotency_hash sha256 v t f
    → (u ≡ v) × (r ≡ t) × (e ≡ f)
unfolding idempotency_hash
idempotency_hash-injective sha256 free u v r t e f h =
    let parts : u ∷ reason_value r ∷ e ∷ [] ≡ v ∷ reason_value t ∷ f ∷ [] =
      canonical-injective _ _ (free _ _ h) in
    (cc, reason_value-injective r t (cc), cc)
