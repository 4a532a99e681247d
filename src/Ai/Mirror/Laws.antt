-- ===== src/Ai/Mirror/Laws.antt =====
-- What a mirror costs (app/ai/mirror.py), when the picture is drawn and when it is not.
use ggumirror_be.Base.{
  ◌≡◌, ◌≢◌, refl, ap, ◌∙◌, inl, inr, true, false, not, ◌&&◌, none, some, [], arith, Option-cases,
}
use ggumirror_be.Base.Int.{neg, ◌+ℤ◌, ◌≤ℤ◌, int_laws, parts_of_eq}
use ggumirror_be.Base.Text.{Text, text_eq, text_eqb_iff, ◌==◌}
use ggumirror_be.Base.Dict.{get, contains}
use ggumirror_be.Base.Exec.{Error, Result, ok, err, ai_sticker_error, no_shards}
use ggumirror_be.Shards.Models.{ai_mirror, refund, ShardMutationResult}
use ggumirror_be.Shards.Keys.{IsCollisionFree, idempotency_hash, idempotency_hash-injective}
use ggumirror_be.Shards.Store.{ShardStore, already_applied, claim_conflict}
use ggumirror_be.Shards.Service.{debit, credit}
use ggumirror_be.Shards.Ledger.{IsSound, balance_of}
use ggumirror_be.Shards.ApplyLaws.{apply_replayed}
use ggumirror_be.Shards.Payments.{
  IsAmount, Moves, event_change, debit-apply, debit-Pays, debit_short, credit-Pays,
}
use ggumirror_be.Ai.Models.{generation_id}
use ggumirror_be.Ai.Prompt.{Characters, normalize_prompt}
use ggumirror_be.Ai.Service.{Outside}
use ggumirror_be.Ai.Mirror.{
  GeneratedMirror, AiMirrorService, composed, mirror_refund_id, is_paid, debited, charged, answered,
  debit_mirror, refund_mirror, generate_mirror,
}

module _ (c : AiMirrorService) (u : Text) (raw : Characters) (request : Text) where
  abbrev pub mirror_id : Text
  mirror_id = generation_id c.sha256 u request

  abbrev pub mirror_debit_key : Text
  mirror_debit_key = idempotency_hash c.sha256 u ai_mirror mirror_id

  abbrev pub mirror_refund_key : Text
  mirror_refund_key = idempotency_hash c.sha256 u refund (mirror_refund_id mirror_id)

  abbrev pub mirror_of : Text → GeneratedMirror
  mirror_of png = record { operation_id = mirror_id; png = png; model = c.model }

  -- A call that passes the checks, to a service that sells mirrors.
  pub record IsSold (prompt : Characters) : Type 0 where
    pub configured : c.is_configured ≡ true
    pub ledger : c.has_shards ≡ true
    pub amount : IsAmount c.price
    pub normal : normalize_prompt c.is_space c.is_hidden raw ≡ ok prompt
    pub named : mirror_id ≢ []

  sold : (prompt : Characters) → IsSold prompt → is_paid c ≡ true
  sold prompt h = rw (h.ledger) (ground (arith, h.amount.positive))

  refund_mirror-credit :
      (prompt : Characters)
      → IsSold prompt
      → (o : Outside) (s t : ShardStore) (r : Result ShardMutationResult) → o.refund_fails ≡ false
      → credit c.sha256 u c.price refund
          (some (mirror_refund_id mirror_id))
          none
          none
          none
          o.refund_line
          o.later
          s
        ≡ (r, t)
      → refund_mirror c u mirror_id o s ≡ t
  unfolding refund_mirror
  refund_mirror-credit prompt h o s t r answers e =
      let on : (is_paid c && not o.refund_fails) ≡ true = ground (arith, sold prompt h) in
      rw (on, e) refl

  module _ (prompt : Characters) (h : IsSold prompt) (o : Outside) (s : ShardStore) where
    generate-charged :
        generate_mirror c u raw request o s
        ≡ charged c u mirror_id prompt o
            (debited (debit c.sha256 u c.price ai_mirror (some mirror_id) o.debit_line o.now s))
    unfolding generate_mirror debit_mirror
    generate-charged = rw (h.configured) (rw (h.normal) (rw (sold prompt h) refl))

    -- Once the operation has been paid for, a call takes nothing more.
    pub drawn_unpaid :
        contains mirror_debit_key s.applied ≡ true
        → (png : Text) → o.provider (composed prompt) ≡ ok png
        → generate_mirror c u raw request o s ≡ (ok (mirror_of png), s)
    drawn_unpaid was png drew = elim (Option-cases (get mirror_debit_key s.applied)) [
      | inl missing ↦ ground arith
      | inr (e, found) ↦
          let change = event_change c.sha256 u (neg c.price) ai_mirror mirror_id none in
          let known : already_applied s change.key ≡ some e = unfold already_applied in found in
          rw
            (
              generate-charged,
              debit-apply c.sha256 u c.price ai_mirror mirror_id o.debit_line o.now s h.amount
                  h.named,
              apply_replayed change o.debit_line o.now s e refl known,
              drew,
            )
            refl
    ]

    abbrev Charges : ShardStore → Type 0
    Charges s' =
        (generate_mirror c u raw request o s
          ≡ answered c u mirror_id o s' (o.provider (composed prompt)))
        × Moves s s' u mirror_debit_key (neg c.price)

    generate-Charges :
        IsSound s
        → get mirror_debit_key s.applied ≡ none
        → c.price ≤ℤ balance_of s u
        → (s' : ShardStore) × Charges s'
    generate-Charges sound new enough =
        let (s', e, moves) =
          debit-Pays c.sha256 u c.price ai_mirror mirror_id o.debit_line o.now s sound h.amount
            h.named new enough in
        (s', (generate-charged ∙ ap (λ p. charged c u mirror_id prompt o (debited p)) e, moves))

    -- A new request that the balance can pay, with a picture, takes the price once.
    pub mirror_draws :
        IsSound s
        → get mirror_debit_key s.applied ≡ none
        → c.price ≤ℤ balance_of s u
        → (png : Text) → o.provider (composed prompt) ≡ ok png
        → let (answer, s') = generate_mirror c u raw request o s in
          (answer ≡ ok (mirror_of png)) × (balance_of s' u ≡ balance_of s u +ℤ neg c.price)
    mirror_draws sound new enough png drew =
        let (s', (e, moves)) = generate-Charges sound new enough in
        rw (e, drew) (refl, moves.balance)

    -- One that the balance cannot pay is refused and takes nothing, whatever the provider would say.
    pub mirror_short :
        IsSound s
        → get mirror_debit_key s.applied ≡ none
        → ¬ (c.price ≤ℤ balance_of s u)
        → generate_mirror c u raw request o s ≡ (err (ai_sticker_error no_shards), s)
    mirror_short sound new short =
        let refused =
          debit_short c.sha256 u c.price ai_mirror mirror_id o.debit_line o.now s sound h.amount
            h.named new short in
        generate-charged ∙ ap (λ p. charged c u mirror_id prompt o (debited p)) refused

    keys_differ :
        IsCollisionFree c.sha256
        → ((mirror_refund_key == mirror_debit_key) ≡ false)
          × ((mirror_debit_key == mirror_refund_key) ≡ false)
    keys_differ free = (
      ground (arith, text_eqb_iff mirror_refund_key mirror_debit_key, distinct),
      ground (arith, text_eqb_iff mirror_debit_key mirror_refund_key, distinct),
    )
      where
        not_debit : refund ≡ ai_mirror → ⊥
        not_debit e = cc

        distinct : mirror_refund_key ≢ mirror_debit_key
        distinct e =
            not_debit
              (idempotency_hash-injective c.sha256 free u u refund ai_mirror
                (mirror_refund_id mirror_id) mirror_id e).1

    -- What a call leaves that charged and gave the price back.
    abbrev Returned : Error → ShardStore → Type 0
    Returned why s' =
        (generate_mirror c u raw request o s ≡ (err why, s'))
        × (balance_of s' u ≡ balance_of s u)
        × (contains mirror_debit_key s'.applied ≡ true)

    generate-Returned :
        IsSound s
        → get mirror_debit_key s.applied ≡ none
        → c.price ≤ℤ balance_of s u
        → IsCollisionFree c.sha256
        → get mirror_refund_key s.applied ≡ none
        → o.refund_fails ≡ false
        → (why : Error) → o.provider (composed prompt) ≡ err why
        → (s' : ShardStore) × Returned why s'
    unfolding mirror_refund_id claim_conflict
    generate-Returned sound new enough free unrefunded answers why failed =
        let (s', (e, moves)) = generate-Charges sound new enough in
        let unmade = moves.unmarked mirror_refund_key ((keys_differ free).0) ∙ unrefunded in
        let (t, f, back) =
          credit-Pays c.sha256 u c.price refund (mirror_refund_id mirror_id) o.refund_line o.later
            s' moves.sound h.amount (λ e. cc) unmade none refl in
        let kept = back.unmarked mirror_debit_key (keys_differ free).1 in
        (
          t,
          (
            rw (e, failed)
                (ap (λ (v : ShardStore). (err why, v))
                  (refund_mirror-credit prompt h o s' t _ answers f)),
            omega (int_laws, parts_of_eq _ _ back.balance, parts_of_eq _ _ moves.balance),
            ground (arith, moves.marked),
          ),
        )

    -- A new request whose picture fails after the price was taken: the failure is answered, and the
    -- balance is what it was, if the ledger answers, has not made this refund and the hash has no
    -- collision.
    pub mirror_refunds :
        IsSound s
        → get mirror_debit_key s.applied ≡ none
        → c.price ≤ℤ balance_of s u
        → IsCollisionFree c.sha256
        → get mirror_refund_key s.applied ≡ none
        → o.refund_fails ≡ false
        → (why : Error) → o.provider (composed prompt) ≡ err why
        → let (answer, s') = generate_mirror c u raw request o s in
          (answer ≡ err why) × (balance_of s' u ≡ balance_of s u)
    mirror_refunds sound new enough free unrefunded answers why failed =
        let (s', (e, back, marked)) =
          generate-Returned sound new enough free unrefunded answers why failed in
        rw e (refl, back)

  -- A new request whose picture fails after the price was taken, and whose price is given back: sent
  -- again to a provider that now draws, it is answered with the picture and not charged, so the
  -- balance after both calls is what it was before the first. The balance can pay the price, the
  -- ledger answers and has not made this refund, and the hash has no collision.
  pub mirror_retry_unpaid :
      (prompt : Characters)
      → IsSold prompt
      → (o again : Outside) (s : ShardStore) (png : Text) → IsSound s
      → get mirror_debit_key s.applied ≡ none
      → c.price ≤ℤ balance_of s u
      → IsCollisionFree c.sha256
      → get mirror_refund_key s.applied ≡ none
      → o.refund_fails ≡ false
      → (why : Error) → o.provider (composed prompt) ≡ err why
      → again.provider (composed prompt) ≡ ok png
      → let failed = (generate_mirror c u raw request o s).1 in
        let (answer, s') = generate_mirror c u raw request again failed in
        (answer ≡ ok (mirror_of png)) × (balance_of s' u ≡ balance_of s u)
  mirror_retry_unpaid prompt h o again s png sound new enough free unrefunded answers why failed
        drew =
      let (s', (e, back, marked)) =
        generate-Returned prompt h o s sound new enough free unrefunded answers why failed in
      rw (e, drawn_unpaid prompt h again s' marked png drew) (refl, back)
