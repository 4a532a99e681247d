-- ===== src/Shards/Payments.antt =====
-- The checked credit and debit of app/shards/service.py under an event, as other components call
-- them: the change that each makes, and what it moves.
use ggumirror_be.Base.{
  ℕ, ◌≡◌, ◌≢◌, refl, ap, ◌∙◌, inl, inr, true, false, Option, none, some, [], ◌∷◌, arith,
  if◌then◌else◌,
}
use ggumirror_be.Base.Int.{ℤ, pos, neg, ◌+ℤ◌, ◌≤ℤ◌, int_laws}
use ggumirror_be.Base.Text.{Text, text_eq, text_eqb_iff, ◌==◌}
use ggumirror_be.Base.Dict.{get, contains, get-insert}
use ggumirror_be.Base.Exec.{Result, ok, err, insufficient_shards, Result-cases}
use ggumirror_be.Shards.Models.{ShardReason, ExclusiveClaim, ShardMutationResult, max_delta}
use ggumirror_be.Shards.Keys.{idempotency_hash}
use ggumirror_be.Shards.Store.{
  ShardStore, Applied, Change, apply, apply_new, already_applied, claim_conflict, quota_full,
  wallet, changed_wallet, changed_entry, moved_wallet, write_change,
}
use ggumirror_be.Shards.Service.{checked, credit, debit, apply_change, event_key, mutation}
use ggumirror_be.Shards.ServiceLaws.{mutation-IsSound}
use ggumirror_be.Shards.Ledger.{
  IsSound, balance_of, balance_of-insert, wallet-balance, wallet-WalletOk,
}
use ggumirror_be.Shards.ApplyLaws.{apply-IsSound, apply_overdraft}

-- An amount that one change may carry.
pub record IsAmount (a : ℤ) : Type 0 where
  pub positive : pos 1 ≤ℤ a
  pub bounded : a ≤ℤ pos max_delta

pub checked-IsAmount : (a : ℤ) → IsAmount a → checked a ≡ ok a
unfolding checked
checked-IsAmount a h = ground arith

-- One more change in the ledger, under a key: what it moves, and what it leaves alone.
pub record Moves (s s' : ShardStore) (u key : Text) (delta : ℤ) : Type 0 where
  pub balance : balance_of s' u ≡ balance_of s u +ℤ delta
  pub others : (v : Text) → (v == u) ≡ false → balance_of s' v ≡ balance_of s v
  pub marked : contains key s'.applied ≡ true
  pub unmarked : (j : Text) → (j == key) ≡ false → get j s'.applied ≡ get j s.applied
  pub sound : IsSound s'

-- The change that a credit or a debit asks for.
abbrev pub event_change :
    (Text → Text) → Text → ℤ → ShardReason → Text → Option ExclusiveClaim → Change
event_change sha256 u delta reason event claim = record {
  user_id = u;
  delta = delta;
  reason = reason;
  key = some (idempotency_hash sha256 u reason event);
  quota = none;
  claim = claim;
}

event_key-nonempty :
    (sha256 : Text → Text) (u : Text) (reason : ShardReason) (event : Text)
    → event ≢ []
    → event_key sha256 u reason (some event) ≡ some (idempotency_hash sha256 u reason event)
event_key-nonempty sha256 u reason [] h = absurd (h refl)
event_key-nonempty sha256 u reason (b ∷ bs) h = refl

pub credit-apply :
    (sha256 : Text → Text) (u : Text) (a : ℤ) (reason : ShardReason) (event : Text)
    (claim : Option ExclusiveClaim) (fresh : Text) (now : ℕ) (s : ShardStore)
    → IsAmount a
    → event ≢ []
    → credit sha256 u a reason (some event) none none claim fresh now s
      ≡ mutation (apply (event_change sha256 u a reason event claim) fresh now s)
unfolding credit apply_change
credit-apply sha256 u a reason event claim fresh now s h e =
    rw (checked-IsAmount a h, event_key-nonempty sha256 u reason event e) refl

pub debit-apply :
    (sha256 : Text → Text) (u : Text) (a : ℤ) (reason : ShardReason) (event fresh : Text) (now : ℕ)
    (s : ShardStore)
    → IsAmount a
    → event ≢ []
    → debit sha256 u a reason (some event) fresh now s
      ≡ mutation (apply (event_change sha256 u (neg a) reason event none) fresh now s)
unfolding debit apply_change
debit-apply sha256 u a reason event fresh now s h e =
    rw (checked-IsAmount a h, event_key-nonempty sha256 u reason event e) refl

-- The answer to a change that is written.
abbrev pub written_answer : Change → ℕ → ShardStore → ShardMutationResult
written_answer c now s = record { wallet = changed_wallet s c now; applied = true; entry_id = none }

module _ (sha256 : Text → Text) (u : Text) (delta : ℤ) (reason : ShardReason) (event : Text)
    (claim : Option ExclusiveClaim) (fresh : Text) (now : ℕ) (s : ShardStore) where
  abbrev change : Change
  change = event_change sha256 u delta reason event claim

  abbrev key : Text
  key = idempotency_hash sha256 u reason event

  written :
      get key s.applied ≡ none
      → claim_conflict s u claim ≡ false
      → pos 0 ≤ℤ balance_of s u +ℤ delta
      → apply change fresh now s ≡ (
        ok (changed_wallet s change now, changed_entry s change fresh now, true),
        write_change s change fresh now,
      )
  unfolding apply apply_new already_applied quota_full
  written new unclaimed fits = ground (arith, wallet-balance s now u)

  written-balance :
      (v : Text)
      → balance_of (write_change s change fresh now) v
        ≡ (if v == u then balance_of s u +ℤ delta else balance_of s v)
  unfolding write_change changed_wallet moved_wallet
  written-balance v = ground (
    arith,
    balance_of-insert s (write_change s change fresh now) u v (changed_wallet s change now) refl,
    wallet-balance s now u,
  )

  written-applied :
      (j : Text)
      → get j (write_change s change fresh now).applied
        ≡ (if j == key then some (changed_entry s change fresh now) else get j s.applied)
  unfolding write_change
  written-applied j = get-insert j key (changed_entry s change fresh now) s.applied

  -- A change under a new event, which no claim stops and which does not overdraw, is written.
  pub write_change-Moves :
      IsSound s
      → get key s.applied ≡ none
      → claim_conflict s u claim ≡ false
      → pos 0 ≤ℤ balance_of s u +ℤ delta
      → (mutation (apply change fresh now s)
          ≡ (ok (written_answer change now s), write_change s change fresh now))
        × Moves s (write_change s change fresh now) u key delta
  write_change-Moves h new unclaimed fits = (
    rw (written new unclaimed fits) refl,
    record {
      balance = ground (arith, written-balance u, text_eqb_iff u u);
      others = λ v ne. ground (arith, written-balance v);
      marked = ground (arith, written-applied key, text_eqb_iff key key);
      unmarked = λ j ne. ground (arith, written-applied j);
      sound = subst_sound (written new unclaimed fits);
    },
  )
    where
      subst_sound :
          apply change fresh now s ≡ (
            ok (changed_wallet s change now, changed_entry s change fresh now, true),
            write_change s change fresh now,
          )
          → IsSound (write_change s change fresh now)
      subst_sound e =
          rw (← ap (λ (p : Result Applied × ShardStore). p.1) e)
            (apply-IsSound change fresh now s h)

pub balance-nonneg : (s : ShardStore) (u : Text) → IsSound s → pos 0 ≤ℤ balance_of s u
unfolding balance_of
balance-nonneg s u h = (wallet-WalletOk s 0 u h).nonneg

-- What a call has answered, and the ledger that it has left, after a change of `delta`.
abbrev pub Pays :
    ShardStore
    → Text
    → Text
    → ℤ
    → ShardMutationResult
    → Result ShardMutationResult × ShardStore
    → Type 0
Pays s u key delta answer out = (s' : ShardStore) × (out ≡ (ok answer, s')) × Moves s s' u key delta

module _ (sha256 : Text → Text) (u : Text) (a : ℤ) (reason : ShardReason) (event fresh : Text)
    (now : ℕ) (s : ShardStore) (h : IsSound s) (amount : IsAmount a) (named : event ≢ [])
    (new : get (idempotency_hash sha256 u reason event) s.applied ≡ none) where
  -- A credit under a new event pays its amount, where no other user owns what it claims.
  pub credit-Pays :
      (claim : Option ExclusiveClaim)
      → claim_conflict s u claim ≡ false
      → Pays s u
          (idempotency_hash sha256 u reason event)
          a
          (written_answer (event_change sha256 u a reason event claim) now s)
          (credit sha256 u a reason (some event) none none claim fresh now s)
  credit-Pays claim unclaimed =
      let fits : pos 0 ≤ℤ balance_of s u +ℤ a =
        omega (int_laws, balance-nonneg s u h, amount.positive) in
      let done =
        write_change-Moves sha256 u a reason event claim fresh now s h new unclaimed fits in
      (_, credit-apply sha256 u a reason event claim fresh now s amount named ∙ done.0, done.1)

  -- A debit under a new event takes its amount, where the balance has it.
  pub debit-Pays :
      a ≤ℤ balance_of s u
      → Pays s u
          (idempotency_hash sha256 u reason event)
          (neg a)
          (written_answer (event_change sha256 u (neg a) reason event none) now s)
          (debit sha256 u a reason (some event) fresh now s)
  unfolding claim_conflict
  debit-Pays enough =
      let fits : pos 0 ≤ℤ balance_of s u +ℤ neg a = omega (int_laws, enough) in
      let done =
        write_change-Moves sha256 u (neg a) reason event none fresh now s h new refl fits in
      (_, debit-apply sha256 u a reason event fresh now s amount named ∙ done.0, done.1)

  -- Where the balance is too small, it raises and takes nothing.
  pub debit_short :
      ¬ (a ≤ℤ balance_of s u)
      → debit sha256 u a reason (some event) fresh now s ≡ (err insufficient_shards, s)
  unfolding already_applied
  debit_short short =
      let c = event_change sha256 u (neg a) reason event none in
      let over : ¬ (pos 0 ≤ℤ (wallet s now u).balance +ℤ neg a) =
        rw (wallet-balance s now u) (λ p. short (omega (int_laws, p))) in
      rw
        (
          debit-apply sha256 u a reason event fresh now s amount named,
          apply_overdraft c fresh now s refl refl new over,
        )
        refl

-- Whatever they answer, a credit and a debit keep the books.
pub credit-IsSound :
    (sha256 : Text → Text) (u : Text) (a : ℤ) (reason : ShardReason) (event period : Option Text)
    (limit : Option ℕ) (claim : Option ExclusiveClaim) (fresh : Text) (now : ℕ) (s : ShardStore)
    → IsSound s
    → IsSound (credit sha256 u a reason event period limit claim fresh now s).1
unfolding credit apply_change
credit-IsSound sha256 u a reason event period limit claim fresh now s h =
    elim (Result-cases (checked a)) [
      | inr (x, e) ↦ rw e h
      | inl (b, e) ↦ rw e (mutation-IsSound _ (apply-IsSound _ fresh now s h))
    ]

pub debit-IsSound :
    (sha256 : Text → Text) (u : Text) (a : ℤ) (reason : ShardReason) (event : Option Text)
    (fresh : Text) (now : ℕ) (s : ShardStore)
    → IsSound s
    → IsSound (debit sha256 u a reason event fresh now s).1
unfolding debit apply_change
debit-IsSound sha256 u a reason event fresh now s h = elim (Result-cases (checked a)) [
  | inr (x, e) ↦ rw e h
  | inl (b, e) ↦ rw e (mutation-IsSound _ (apply-IsSound _ fresh now s h))
]
