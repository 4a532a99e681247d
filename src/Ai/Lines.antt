-- ===== src/Ai/Lines.antt =====
-- The ledger lines that app/ai/service.py writes.
use ggumirror_be.Base.{ℕ, ◌≡◌, ◌⊎◌, refl, ap, ◌∙◌, inl, inr, none, some, List, [], ◌∷◌, ◌++◌, arith}
use ggumirror_be.Base.Int.{ℤ, neg}
use ggumirror_be.Base.Text.{Text, codes, text_eq}
use ggumirror_be.Base.Exec.{Result, ok, err, Result-cases}
use ggumirror_be.Shards.Models.{ShardLedgerEntry, refund, ai_sticker}
use ggumirror_be.Shards.Store.{
  ShardStore, Applied, Change, apply, write_change, changed_entry, new_entry,
}
use ggumirror_be.Shards.Service.{checked, credit, debit, event_key, apply_change, mutation}
use ggumirror_be.Shards.Ledger.{IsSound}
use ggumirror_be.Shards.ApplyLaws.{apply-IsSound, apply-state}
use ggumirror_be.Shards.Once.{IsIndexed, apply-IsIndexed}
use ggumirror_be.Ai.Models.{Generation, generation_id, refund_event_id}
use ggumirror_be.Ai.Made.{IsMade}
use ggumirror_be.Ai.Service.{AiStickerService}

-- A line is the debit of a job, of exactly the price, or the refund of one, of exactly the price: for
-- the user whose request made the job, under the key of that job's debit or refund.
unfoldable pub IsJobLine : AiStickerService → ShardLedgerEntry → Type 0
IsJobLine c e =
    (request : Text) × (((e.reason ≡ ai_sticker)
        × (e.delta ≡ neg c.price)
        × (e.idempotency_key_hash
            ≡ event_key c.sha256 e.user_id ai_sticker
                (some (generation_id c.sha256 e.user_id request))))
      ⊎ ((e.reason ≡ refund)
          × (e.delta ≡ c.price)
          × (e.idempotency_key_hash
              ≡ event_key c.sha256 e.user_id refund
                  (some (codes "ai_sticker_refund:" ++ generation_id c.sha256 e.user_id request)))))

unfoldable pub AllJobLines : AiStickerService → List ShardLedgerEntry → Type 0
AllJobLines c [] = Unit {0}
AllJobLines c (e ∷ es) = IsJobLine c e × AllJobLines c es

-- Books that balance and name each event once, and have only such lines after `base`.
pub record IsBooked (c : AiStickerService) (base : List ShardLedgerEntry) (s : ShardStore)
    : Type 0 where
  pub sound : IsSound s
  pub indexed : IsIndexed s
  pub lines : (es : List ShardLedgerEntry) × (s.entries ≡ base ++ es) × AllJobLines c es

AllJobLines-append :
    (c : AiStickerService) (es : List ShardLedgerEntry) (e : ShardLedgerEntry)
    → AllJobLines c es
    → IsJobLine c e
    → AllJobLines c (es ++ e ∷ [])
unfolding AllJobLines
AllJobLines-append c [] e h k = (k, tt)
AllJobLines-append c (x ∷ es) e h k = (h.0, AllJobLines-append c es e h.1 k)

pub append_nil : (xs : List ShardLedgerEntry) → xs ≡ xs ++ []
append_nil [] = refl
append_nil (x ∷ xs) = ap (λ t. x ∷ t) (append_nil xs)

append_assoc : (xs ys zs : List ShardLedgerEntry) → (xs ++ ys) ++ zs ≡ xs ++ (ys ++ zs)
append_assoc [] ys zs = refl
append_assoc (x ∷ xs) ys zs = ap (λ t. x ∷ t) (append_assoc xs ys zs)

checked-eq : (a b : ℤ) → checked a ≡ ok b → b ≡ a
unfolding checked
checked-eq a b h = ground arith

mutation-state : (out : Result Applied × ShardStore) → (mutation out).1 ≡ out.1
mutation-state (ok r, s) = refl
mutation-state (err e, s) = refl

module _ (c : AiStickerService) (base : List ShardLedgerEntry) where
  apply-IsBooked :
      (ch : Change) (fresh : Text) (now : ℕ) (s : ShardStore)
      → IsJobLine c (changed_entry s ch fresh now)
      → IsBooked c base s
      → IsBooked c base (apply ch fresh now s).1
  unfolding write_change
  apply-IsBooked ch fresh now s line h = elim (apply-state ch fresh now s) [
    | inl same ↦ rw same h
    | inr (written, _, _, _) ↦
        let (es, grown, all) = h.lines in
        record {
          sound = apply-IsSound ch fresh now s h.sound;
          indexed = apply-IsIndexed ch fresh now s h.indexed;
          lines = (
            es ++ changed_entry s ch fresh now ∷ [],
            ap (λ (t : ShardStore). t.entries) written
                ∙ ap (λ t. t ++ changed_entry s ch fresh now ∷ []) grown
                ∙ append_assoc base es (changed_entry s ch fresh now ∷ []),
            AllJobLines-append c es (changed_entry s ch fresh now) all line,
          );
        }
  ]

  pub refund-IsBooked :
      (g : Generation) (fresh : Text) (now : ℕ) (s : ShardStore)
      → IsMade c g
      → IsBooked c base s
      → IsBooked c base
          (credit c.sha256 g.user_id g.price refund
            (some (refund_event_id g))
            none
            none
            none
            fresh
            now
            s).1
  unfolding credit apply_change IsJobLine changed_entry new_entry refund_event_id
  refund-IsBooked g fresh now s same h = elim (Result-cases (checked g.price)) [
    | inr (x, e) ↦ rw e h
    | inl (b, e) ↦
        rw (e, mutation-state)
          (apply-IsBooked _ fresh now s
            (let (priced, (request, named)) = same in
              (
                request,
                inr (
                  refl,
                  checked-eq g.price b e ∙ priced,
                  ap
                      (λ id.
                        event_key c.sha256 g.user_id refund
                          (some (codes "ai_sticker_refund:" ++ id)))
                      named,
                ),
              ))
            h)
  ]

  pub debit-IsBooked :
      (g : Generation) (fresh : Text) (now : ℕ) (s : ShardStore)
      → IsMade c g
      → IsBooked c base s
      → IsBooked c base (debit c.sha256 g.user_id c.price ai_sticker (some g.id) fresh now s).1
  unfolding debit apply_change IsJobLine changed_entry new_entry
  debit-IsBooked g fresh now s made h = elim (Result-cases (checked c.price)) [
    | inr (x, e) ↦ rw e h
    | inl (b, e) ↦
        rw (e, mutation-state)
          (apply-IsBooked _ fresh now s
            (let (priced, (request, named)) = made in
              (
                request,
                inl (
                  refl,
                  ap neg (checked-eq c.price b e),
                  ap (λ id. event_key c.sha256 g.user_id ai_sticker (some id)) named,
                ),
              ))
            h)
  ]
