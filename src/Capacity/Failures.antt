-- ===== src/Capacity/Failures.antt =====
-- A purchase of slots that raises (app/capacity/store.py, `purchase`).
use ggumirror_be.Base.{ℕ, ◌+◌, ◌≡◌, refl, true, false, inl, inr, [], ◌∷◌, Option-cases}
use ggumirror_be.Base.Int.{pos, neg}
use ggumirror_be.Base.Text.{Text, text_eq}
use ggumirror_be.Base.Dict.{get}
use ggumirror_be.Base.Exec.{Result, ok, is_ok, Result-cases}
use ggumirror_be.Capacity.{
  SlotPack, CapacityStore, slots_of, operation_key, operation_document, write_slots, put_shards,
  capacity_transaction, purchase_commit, purchase,
}
use ggumirror_be.Shards.Models.{mirror_capacity_purchase}
use ggumirror_be.Shards.Scoped.{Staged, context}
use ggumirror_be.Shards.Service.{scoped_change}
use ggumirror_be.Shards.Staging.{scoped_change-AllTotal, staged_total}
use ggumirror_be.Transaction.{commit, run_writes}
use ggumirror_be.Transaction.Total.{AllTotal, run_writes-within}

purchase_commit-ok :
    (sha256 : Text → Text) (u : Text) (p : SlotPack) (operation : Text) (m : CapacityStore)
    (st : Staged)
    → AllTotal st.context.transaction.writes
    → is_ok (purchase_commit sha256 u p operation m st).0 ≡ true
unfolding purchase_commit commit capacity_transaction put_shards run_writes write_slots
purchase_commit-ok sha256 u p operation m st total =
    let after = slots_of m u + p.slot_delta in
    let settles =
      run_writes-within (λ (out : Result (Unit {0}) × CapacityStore). out.0 ≡ ok tt)
        (λ (w : CapacityStore). w.shards) put_shards (λ s t w. refl) st.context.transaction.writes
        (write_slots u after (operation_key sha256 u operation) (operation_document u p after) ∷ [])
        total m (λ s undos. refl) m.shards [] in
    rw settles refl

-- A purchase of slots that raises leaves the slots, the records and the whole ledger as they were.
pub purchase_unchanged :
    (sha256 : Text → Text) (u : Text) (p : SlotPack) (operation : Text) (now : ℕ)
    (m : CapacityStore)
    → is_ok (purchase sha256 u p operation now m).0 ≡ false
    → (purchase sha256 u p operation now m).1 ≡ m
unfolding purchase
purchase_unchanged sha256 u p operation now m =
    let change =
      scoped_change sha256 m.shards context u (neg (pos p.cost_shards)) mirror_capacity_purchase
        operation now in
    elim (Option-cases (get (operation_key sha256 u operation) m.operations)) [
      | inr (o, e) ↦ rw e (λ failed. cc)
      | inl new ↦ elim (Result-cases change) [
        | inr (x, e) ↦ rw (new, e) (λ _. refl)
        | inl (st, e) ↦
            let total : AllTotal st.context.transaction.writes =
              staged_total change st e
                (scoped_change-AllTotal sha256 m.shards context u _ _ operation now tt) in
            rw (new, e) (λ failed. cc (purchase_commit-ok sha256 u p operation m st total))
      ]
    ]
