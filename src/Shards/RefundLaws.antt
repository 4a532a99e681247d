-- ===== src/Shards/RefundLaws.antt =====
-- The behaviour of `refund` (app/shards/store.py).
use ggumirror_be.Base.{ℕ, ◌≡◌, refl, ◌⊎◌, inl, inr, Option, none, some, arith, Bool-cases, ap}
use ggumirror_be.Base.Int.{
  ℤ, pos, ◌-ℤ◌, ◌≤ℤ◌, int_laws, ltb_ℤ, min_ℤ, min_ℤ_bounds, min_ℤ_nonneg, parts_of_eq,
}
use ggumirror_be.Base.Text.{Text, text_eq, pair_eq, text_eqb_iff}
use ggumirror_be.Base.Dict.{Dict, get-insert_self}
use ggumirror_be.Base.Exec.{Result, ok, err}
use ggumirror_be.Shards.Models.{ShardWallet, Document, RefundPlan, ShardRefundResult}
use ggumirror_be.Shards.Store.{ShardStore, wallet, new_entry}
use ggumirror_be.Shards.Refund.{
  RefundRequest, refund_purchase, refund_new, recover, recoverable, write_recovery, refund_entry,
  refunded_wallet, refund_document, recovery_id, refund_recorded, refund_planned, refund_claimed,
  nonempty, document_at,
}
use ggumirror_be.Shards.Ledger.{
  WalletOk, IsSound, balance_of, balance_of-insert, wallet-balance, wallet-WalletOk, Posted,
  Posted-IsSound,
}

claims-IsSound :
    (s : ShardStore) (d : Dict (Text × Text) Document)
    → IsSound s
    → IsSound (record s { claims = d })
unfolding balance_of wallet
claims-IsSound s d h = record { wallets_ok = h.wallets_ok; ledger = h.ledger }

refunded-WalletOk :
    (u : Text) (w : ShardWallet) (recovered : ℤ) (now : ℕ)
    → WalletOk u w
    → pos 0 ≤ℤ recovered
    → recovered ≤ℤ w.balance
    → WalletOk u (refunded_wallet w u recovered now)
unfolding refunded_wallet
refunded-WalletOk u w recovered now h p q = record {
  owner = refl;
  nonneg = omega int_laws;
  earned = h.earned;
  spent = h.spent;
  refunded = omega (int_laws, h.refunded);
  returned = h.returned;
  explained = omega (int_laws, parts_of_eq _ _ h.explained);
}

write_recovery-Posted :
    (u key : Text) (recovered : ℤ) (now : ℕ) (s : ShardStore)
    → IsSound s
    → pos 0 ≤ℤ recovered
    → recovered ≤ℤ (wallet s now u).balance
    → Posted s
        (write_recovery u key recovered now s)
        u
        (refunded_wallet (wallet s now u) u recovered now)
        (refund_entry (wallet s now u) u recovered key now)
unfolding write_recovery refund_entry new_entry refunded_wallet
write_recovery-Posted u key recovered now s h p q = record {
  wallets = refl;
  entries = refl;
  user = refl;
  moved = rw (wallet-balance s now u) (omega int_laws);
  in_order = refunded-WalletOk u (wallet s now u) recovered now (wallet-WalletOk s now u h) p q;
}

recover-IsSound :
    (u key : Text) (plan : RefundPlan) (now : ℕ) (s : ShardStore)
    → IsSound s
    → IsSound (recover u key (recoverable s u plan now) now s)
unfolding recover recoverable
recover-IsSound u key plan now s h =
    let recovered = min_ℤ (wallet s now u).balance plan.requested in
    let bounds = min_ℤ_bounds (wallet s now u).balance plan.requested in
    elim (Bool-cases (ltb_ℤ (pos 0) recovered)) [
      | inl some_of_it ↦ rw some_of_it (
          Posted-IsSound s _ u _ _
            (write_recovery-Posted u key recovered now s h (ground arith) bounds.0) h)
      | inr nothing ↦ rw nothing h
    ]

-- A call of `refund` leaves the store alone, or it is the first of its kind.
abbrev RefundEnds : RefundRequest → ℕ → ShardStore → Result ShardRefundResult × ShardStore → Type 0
RefundEnds r now s out = (out.1 ≡ s) ⊎ ((plan : RefundPlan) × (out ≡ refund_new r plan now s))

recorded-ends :
    (r : RefundRequest) (plan : RefundPlan) (now : ℕ) (s : ShardStore) (o : Option Document)
    → RefundEnds r now s (refund_recorded r plan now s o)
recorded-ends r plan now s none = inr (plan, refl)
recorded-ends r plan now s (some existing) = inl refl

planned-ends :
    (r : RefundRequest) (now : ℕ) (s : ShardStore) (o : Result RefundPlan)
    → RefundEnds r now s (refund_planned r now s o)
planned-ends r now s (ok plan) = recorded-ends r plan now s (nonempty (document_at s r.target))
planned-ends r now s (err e) = inl refl

claimed-ends :
    (r : RefundRequest) (now : ℕ) (s : ShardStore) (o : Option Document)
    → RefundEnds r now s (refund_claimed r now s o)
claimed-ends r now s none = inl refl
claimed-ends r now s (some claim) = planned-ends r now s (r.plan claim)

refund-ends :
    (r : RefundRequest) (now : ℕ) (s : ShardStore) → RefundEnds r now s (refund_purchase r now s)
unfolding refund_purchase
refund-ends r now s = claimed-ends r now s (document_at s r.purchase)

-- Where the books balance, they balance after a refund, however much of it could be recovered and
-- whether it succeeds or raises: no balance is negative, each wallet's totals, refunds included,
-- explain its balance, and each balance is the sum of that user's ledger lines.
pub refund-IsSound :
    (r : RefundRequest) (now : ℕ) (s : ShardStore) → IsSound s → IsSound (refund_purchase r now s).1
unfolding refund_new
refund-IsSound r now s h = elim (refund-ends r now s) [
  | inl same ↦ rw same h
  | inr (plan, e) ↦ rw e (claims-IsSound _ _ (recover-IsSound r.user_id r.key plan now s h))
]

recoverable-balance_of :
    (s : ShardStore) (u : Text) (plan : RefundPlan) (now : ℕ)
    → recoverable s u plan now ≡ min_ℤ (balance_of s u) plan.requested
unfolding recoverable
recoverable-balance_of s u plan now =
    ap (λ (b : ℤ). min_ℤ b plan.requested) (wallet-balance s now u)

recover-balance :
    (u key : Text) (recovered : ℤ) (now : ℕ) (s : ShardStore)
    → pos 0 ≤ℤ recovered
    → balance_of (recover u key recovered now s) u ≡ balance_of s u -ℤ recovered
unfolding recover write_recovery refunded_wallet
recover-balance u key recovered now s p = elim (Bool-cases (ltb_ℤ (pos 0) recovered)) [
  | inl some_of_it ↦ rw some_of_it (
      ground (
        arith,
        balance_of-insert s (write_recovery u key recovered now s) u u
            (refunded_wallet (wallet s now u) u recovered now) refl,
        text_eqb_iff u u,
        wallet-balance s now u,
      ))
  | inr nothing ↦
      let zero_recovered : recovered ≡ pos 0 = ground arith in
      rw (nothing, zero_recovered) (omega int_laws)
]

recover-quotas :
    (u key : Text) (recovered : ℤ) (now : ℕ) (s : ShardStore)
    → (recover u key recovered now s).quotas ≡ s.quotas
unfolding recover write_recovery
recover-quotas u key recovered now s = ground arith

pub refund_first-eq :
    (r : RefundRequest) (now : ℕ) (s : ShardStore) (claim : Document) (plan : RefundPlan)
    → document_at s r.purchase ≡ some claim
    → r.plan claim ≡ ok plan
    → document_at s r.target ≡ none
    → refund_purchase r now s ≡ refund_new r plan now s
unfolding refund_purchase
refund_first-eq r now s claim plan p q t = ground arith

-- A refund of a known purchase that was not recorded yet, with a plan that asks for no negative
-- amount from a wallet that is not overdrawn, takes the smaller of the balance and what was asked:
-- the balance falls by exactly that, no quota changes, and the record is written with it.
pub refund_first :
    (r : RefundRequest) (now : ℕ) (s : ShardStore) (claim : Document) (plan : RefundPlan)
    → document_at s r.purchase ≡ some claim
    → r.plan claim ≡ ok plan
    → document_at s r.target ≡ none
    → pos 0 ≤ℤ balance_of s r.user_id
    → pos 0 ≤ℤ plan.requested
    → let recovered = min_ℤ (balance_of s r.user_id) plan.requested in
      let (out, s') = refund_purchase r now s in
      (balance_of s' r.user_id ≡ balance_of s r.user_id -ℤ recovered)
      × (s'.quotas ≡ s.quotas)
      × (document_at s' r.target
          ≡ some (
              refund_document r.document plan r.user_id recovered
                (recovery_id r.key recovered)
                now))
unfolding refund_new
refund_first r now s claim plan p q t nonneg asked =
    let u = r.user_id in
    let recovered = min_ℤ (balance_of s u) plan.requested in
    rw (refund_first-eq r now s claim plan p q t, recoverable-balance_of s u plan now)
      (
        unfold balance_of wallet in
            recover-balance u r.key recovered now s (min_ℤ_nonneg _ _ nonneg asked),
        recover-quotas u r.key recovered now s,
        get-insert_self (r.target.collection, r.target.key) _ _,
      )
