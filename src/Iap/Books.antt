-- ===== src/Iap/Books.antt =====
-- The ledger under Apple's transactions and notifications (app/iap), and the environments whose
-- transactions count.
use ggumirror_be.Base.{
  ℕ, ◌≡◌, refl, ap, ap₂, ◌∙◌, inl, inr, Bool, true, false, not, ◌||◌, Option, none, some, List, [],
  ◌∷◌, arith, if-all, Bool-cases,
}
use ggumirror_be.Base.Int.{ℤ}
use ggumirror_be.Base.Text.{Text, text_eq, text_eqb, text_eqb_iff, ◌==◌}
use ggumirror_be.Base.Exec.{Result, ok, err, is_ok, Result-cases}
use ggumirror_be.Auth.Models.{User}
use ggumirror_be.Shards.Models.{
  iap_purchase, ShardMutationResult, ShardRefundResult, ShardRefundReversalResult,
}
use ggumirror_be.Shards.Store.{ShardStore}
use ggumirror_be.Shards.Scoped.{member}
use ggumirror_be.Shards.Service.{refund_iap, reverse_iap_refund}
use ggumirror_be.Shards.Ledger.{IsSound}
use ggumirror_be.Shards.RefundLaws.{refund-IsSound}
use ggumirror_be.Shards.Reversal.{reverse_refund-IsSound}
use ggumirror_be.Shards.Payments.{credit-IsSound}
use ggumirror_be.Iap.Models.{
  VerifiedTransaction, VerifiedNotification, NotificationOutcome, Uuid, account_token_user_id,
  refund_notification, refund_reversed_notification, acknowledged_notifications,
  parse_allowed_environments, allowed_parts, production, sandbox, xcode,
}
use ggumirror_be.Iap.Service.{
  IapService, check_shape, credited, apply_credit, checked_transaction, credit_iap, purchase_claim,
}
use ggumirror_be.Iap.Refunds.{
  is_skipped, recovered, recover_refund, recover_for, refund_of, handle_refund, reversed,
  reverse_for, reversal_of, handle_reversal,
}
use ggumirror_be.Iap.Notifications.{
  NotificationService, answered, route, checked_notification, handle_notification,
}

abbrev Kept : {A : Type 0} → A × ShardStore → Type 0
Kept out = IsSound out.1

credited-Kept :
    (c : IapService) (amount : ℤ) (out : Result ShardMutationResult × ShardStore)
    → IsSound out.1
    → Kept (credited c amount out)
credited-Kept c amount (ok r, s) h = h
credited-Kept c amount (err e, s) h = h

credit_iap-Kept :
    (c : IapService) (user : User) (signed fresh : Text) (now : ℕ) (s : ShardStore)
    → IsSound s
    → Kept (credit_iap c user signed fresh now s)
unfolding credit_iap apply_credit
credit_iap-Kept c user signed fresh now s h =
    elim (Result-cases (checked_transaction c user signed)) [
      | inr (x, e) ↦ rw e h
      | inl ((t, amount), e) ↦ rw e (
          credited-Kept c amount _ (
            credit-IsSound c.sha256 user.id amount iap_purchase (some t.transaction_id) none none
              (some (purchase_claim c t amount)) fresh now s h))
    ]

recovered-Kept :
    (out : Result ShardRefundResult × ShardStore) → IsSound out.1 → Kept (recovered out)
recovered-Kept (ok r, s) h = h
recovered-Kept (err e, s) h = h

reversed-Kept :
    (out : Result ShardRefundReversalResult × ShardStore) → IsSound out.1 → Kept (reversed out)
reversed-Kept (ok r, s) h = h
reversed-Kept (err e, s) h = h

module _ (sha256 : Text → Text) (uuid : Uuid) (now : ℕ) (s : ShardStore) (h : IsSound s) where
  recover_for-Kept :
      (t : VerifiedTransaction) (u : Option Text) → Kept (recover_for sha256 uuid t u now s)
  unfolding recover_refund refund_iap
  recover_for-Kept t none = h
  recover_for-Kept t (some u) = recovered-Kept _ (refund-IsSound _ now s h)

  refund_of-Kept : (t : Option VerifiedTransaction) → Kept (refund_of sha256 uuid t now s)
  refund_of-Kept none = h
  refund_of-Kept (some t) =
      if-all {A = Result (Unit {0}) × ShardStore} Kept (is_skipped t) _ _ h
        (recover_for-Kept t (account_token_user_id uuid t.app_account_token))

  reverse_for-Kept :
      (t : VerifiedTransaction) (u : Option Text) → Kept (reverse_for sha256 uuid t u now s)
  unfolding reverse_iap_refund
  reverse_for-Kept t none = h
  reverse_for-Kept t (some u) = reversed-Kept _ (reverse_refund-IsSound _ now s h)

  reversal_of-Kept : (t : Option VerifiedTransaction) → Kept (reversal_of sha256 uuid t now s)
  reversal_of-Kept none = h
  reversal_of-Kept (some t) = reverse_for-Kept t (account_token_user_id uuid t.app_account_token)

answered-Kept :
    (c : NotificationService) (out : Result (Unit {0}) × ShardStore)
    → IsSound out.1
    → Kept (answered c out)
answered-Kept c (ok r, s) h = h
answered-Kept c (err e, s) h = h

route-Kept :
    (c : NotificationService) (n : VerifiedNotification) (now : ℕ) (s : ShardStore)
    → IsSound s
    → Kept (route c n now s)
unfolding route handle_refund handle_reversal
route-Kept c n now s h =
    let kind = n.notification_type in
    if-all {A = Result NotificationOutcome × ShardStore} Kept
      (kind == refund_notification || kind == refund_reversed_notification) _ _
      (if-all {A = Result NotificationOutcome × ShardStore} Kept (not c.has_refunds) _ _ h (
        answered-Kept c _ (
          if-all {A = Result (Unit {0}) × ShardStore} Kept (kind == refund_notification) _ _
            (refund_of-Kept c.sha256 c.uuid now s h n.transaction)
            (reversal_of-Kept c.sha256 c.uuid now s h n.transaction))))
      (if-all {A = Result NotificationOutcome × ShardStore} Kept
        (member kind acknowledged_notifications) _ _ h h)

handle_notification-Kept :
    (c : NotificationService) (signed : Text) (now : ℕ) (s : ShardStore)
    → IsSound s
    → Kept (handle_notification c signed now s)
unfolding handle_notification
handle_notification-Kept c signed now s h = elim (Result-cases (checked_notification c signed)) [
  | inr (x, e) ↦ rw e h
  | inl (n, e) ↦ rw e (route-Kept c n now s h)
]

-- A transaction that a user brings, or a notification of Apple's.
pub data IapCall : Type 0 where
  bring : User → Text → Text → ℕ → IapCall
  notify : Text → ℕ → IapCall

unfoldable pub serve_iap : IapService → NotificationService → IapCall → ShardStore → ShardStore
serve_iap c n (bring user signed fresh now) s = (credit_iap c user signed fresh now s).1
serve_iap c n (notify signed now) s = (handle_notification n signed now s).1

unfoldable pub serve_iaps :
    IapService → NotificationService → List IapCall → ShardStore → ShardStore
serve_iaps c n [] s = s
serve_iaps c n (call ∷ calls) s = serve_iaps c n calls (serve_iap c n call s)

serve_iap-IsSound :
    (c : IapService) (n : NotificationService) (call : IapCall) (s : ShardStore)
    → IsSound s
    → IsSound (serve_iap c n call s)
unfolding serve_iap
serve_iap-IsSound c n (bring user signed fresh now) s h =
    credit_iap-Kept c user signed fresh now s h
serve_iap-IsSound c n (notify signed now) s h = handle_notification-Kept n signed now s h

-- Whatever transactions users bring and whatever notifications arrive, in any order, refunds and
-- their reversals included, the books of the ledger stay balanced.
pub serve_iaps-IsSound :
    (c : IapService) (n : NotificationService) (calls : List IapCall) (s : ShardStore)
    → IsSound s
    → IsSound (serve_iaps c n calls s)
unfolding serve_iaps
serve_iaps-IsSound c n [] s h = h
serve_iaps-IsSound c n (call ∷ calls) s h =
    serve_iaps-IsSound c n calls (serve_iap c n call s) (serve_iap-IsSound c n call s h)

not-production : (xcode == production) ≡ false
unfolding text_eqb
not-production = refl

not-sandbox : (xcode == sandbox) ≡ false
unfolding text_eqb
not-sandbox = refl

not-allowed : (q : Text) → member q (production ∷ sandbox ∷ []) ≡ true → (xcode == q) ≡ false
unfolding member
not-allowed q h = elim (Bool-cases (q == production)) [
  | inl one ↦ ap (λ (t : Text). xcode == t) ((text_eqb_iff q production).0 one) ∙ not-production
  | inr other ↦ elim (Bool-cases (q == sandbox)) [
    | inl one ↦ ap (λ (t : Text). xcode == t) ((text_eqb_iff q sandbox).0 one) ∙ not-sandbox
    | inr neither ↦ absurd (neither_allowed (q == production) (q == sandbox) other neither h)
  ]
]
  where
    neither_allowed : (a b : Bool) → a ≡ false → b ≡ false → (a || (b || false)) ≡ true → ⊥
    neither_allowed a b p q k = ground arith

xcode-dropped :
    (strip : Text → Text) (parts : List Text) → member xcode (allowed_parts strip parts) ≡ false
unfolding allowed_parts
xcode-dropped strip [] = unfold member in refl
xcode-dropped strip (p ∷ ps) = elim (Bool-cases (member (strip p) (production ∷ sandbox ∷ []))) [
  | inr dropped ↦ rw dropped (xcode-dropped strip ps)
  | inl kept ↦ rw kept (member-cons kept (xcode-dropped strip ps))
]
  where
    member-cons :
        member (strip p) (production ∷ sandbox ∷ []) ≡ true
        → member xcode (allowed_parts strip ps) ≡ false
        → member xcode (strip p ∷ allowed_parts strip ps) ≡ false
    member-cons kept rest = unfold member in rw (not-allowed (strip p) kept) rest

environment_refused :
    (c : IapService) (user : User) (signed : Text) (t : VerifiedTransaction)
    → c.verify (c.strip signed) ≡ ok t
    → member t.environment c.allowed_environments ≡ false
    → is_ok (checked_transaction c user signed) ≡ false
unfolding checked_transaction check_shape
environment_refused c user signed t signed_by_apple h = ground arith

refused_unchanged :
    (c : IapService) (user : User) (signed fresh : Text) (now : ℕ) (s : ShardStore)
    → is_ok (checked_transaction c user signed) ≡ false
    → (is_ok (credit_iap c user signed fresh now s).0 ≡ false)
      × ((credit_iap c user signed fresh now s).1 ≡ s)
unfolding credit_iap
refused_unchanged c user signed fresh now s h =
    elim (Result-cases (checked_transaction c user signed)) [
      | inr (x, e) ↦ rw e (refl, refl)
      | inl (r, e) ↦ absurd (ground arith)
    ]

-- Whatever text sets the allowed environments, a transaction of Xcode's local tests is refused, and
-- changes nothing.
pub xcode_never_pays :
    (c : IapService) (split : Text → List Text) (raw : Text) (user : User) (signed fresh : Text)
    (t : VerifiedTransaction) (now : ℕ) (s : ShardStore)
    → c.allowed_environments ≡ parse_allowed_environments c.strip split raw
    → c.verify (c.strip signed) ≡ ok t
    → t.environment ≡ xcode
    → (is_ok (credit_iap c user signed fresh now s).0 ≡ false)
      × ((credit_iap c user signed fresh now s).1 ≡ s)
unfolding parse_allowed_environments
xcode_never_pays c split raw user signed fresh t now s allowed verified local =
    let absent : member t.environment c.allowed_environments ≡ false =
      ap₂ member local allowed ∙ xcode-dropped c.strip (split raw) in
    refused_unchanged c user signed fresh now s
      (environment_refused c user signed t verified absent)
