-- ===== src/Capacity/Laws.antt =====
-- What one purchase of slots does, and what its replay does (app/capacity/store.py, `purchase`).
use ggumirror_be.Base.{
  ℕ, ◌+◌, ◌≡◌, refl, ◌≢◌, true, false, none, [], ◌∷◌, arith, if◌then◌else◌, ◌≤◌,
}
use ggumirror_be.Base.Int.{ℤ, pos, neg, ◌+ℤ◌, ◌≤ℤ◌, int_laws}
use ggumirror_be.Base.Text.{Text, text_eq, text_eqb_iff, ◌==◌}
use ggumirror_be.Base.Dict.{get, insert, get-insert, get-insert_self}
use ggumirror_be.Base.Exec.{ok}
use ggumirror_be.Canonical.Injective.{canonical-injective}
use ggumirror_be.Capacity.{
  SlotPack, CapacityPurchaseResult, CapacityStore, slots_of, operation_key, operation_document,
  write_slots, put_shards, capacity_transaction, purchase_commit, purchase,
}
use ggumirror_be.Shards.Models.{mirror_capacity_purchase, max_delta}
use ggumirror_be.Shards.Keys.{IsCollisionFree, idempotency_hash}
use ggumirror_be.Shards.Store.{ShardStore, wallet, moved_wallet}
use ggumirror_be.Shards.Scoped.{
  context, member, after_write, staged_write, scoped_wallet, scoped_entry,
}
use ggumirror_be.Shards.Service.{scoped_change, moved}
use ggumirror_be.Shards.ServiceLaws.{moved_neg}
use ggumirror_be.Shards.Ledger.{
  IsSound, balance_of, balance_of-insert, wallet-balance, Posted-IsSound,
}
use ggumirror_be.Shards.ScopedLaws.{scoped-Posted, apply_in_transaction_stages}
use ggumirror_be.Transaction.{commit, run_writes, add, within}

module _ (sha256 : Text → Text) (u : Text) (p : SlotPack) (operation : Text) (now : ℕ)
    (m : CapacityStore) where
  abbrev price : ℤ
  price = neg (pos p.cost_shards)

  abbrev debit_key : Text
  debit_key = idempotency_hash sha256 u mirror_capacity_purchase operation

  -- A pack that one change may pay, an operation that neither store knows, and shards enough.
  pub record CanExpand : Type 0 where
    pub sound : IsSound m.shards
    pub new : get (operation_key sha256 u operation) m.operations ≡ none
    pub unpaid : get debit_key m.shards.applied ≡ none
    pub priced : 1 ≤ p.cost_shards
    pub movable : p.cost_shards ≤ max_delta
    pub enough : pos p.cost_shards ≤ℤ balance_of m.shards u

  abbrev paid_shards : ShardStore
  paid_shards =
      after_write u (scoped_wallet m.shards u price now)
        (scoped_entry m.shards u price mirror_capacity_purchase debit_key now) debit_key m.shards

  abbrev after : ℕ
  after = slots_of m u + p.slot_delta

  abbrev after_purchase : CapacityStore
  after_purchase = record {
    purchased = insert u after m.purchased;
    operations =
        insert (operation_key sha256 u operation) (operation_document u p after) m.operations;
    shards = paid_shards;
  }

  -- The answer to a purchase that goes through.
  abbrev pub expanded : CapacityPurchaseResult
  expanded = record {
    operation_id = operation;
    pack_id = p.id;
    charged_shards = p.cost_shards;
    slot_delta = p.slot_delta;
    applied = true;
    capacity = record { user_id = u; purchased_slots = after };
    balance = (wallet m.shards now u).balance +ℤ price;
  }

  module _ (h : CanExpand) where
    price_moves : moved price ≡ ok price
    price_moves = moved_neg (pos p.cost_shards) (omega (arith, h.priced)) (omega (arith, h.movable))

    fits : pos 0 ≤ℤ (wallet m.shards now u).balance +ℤ price
    fits = rw (wallet-balance m.shards now u) (omega (int_laws, h.enough))

    purchase_made : purchase sha256 u p operation now m ≡ (ok expanded, after_purchase)
    unfolding purchase purchase_commit scoped_change commit run_writes add staged_write within
        write_slots capacity_transaction put_shards member operation_document scoped_wallet
        moved_wallet
    purchase_made =
        let stages =
          apply_in_transaction_stages m.shards context u price mirror_capacity_purchase debit_key
            now h.unpaid refl fits in
        rw (h.new, price_moves, stages) refl

    paid-IsSound : IsSound paid_shards
    paid-IsSound =
        Posted-IsSound m.shards paid_shards u _ _
          (scoped-Posted u price mirror_capacity_purchase debit_key now m.shards m.shards h.sound
            refl fits)
          h.sound

    paid-balances :
        (v : Text)
        → balance_of paid_shards v
          ≡ (if v == u then balance_of m.shards v +ℤ price else balance_of m.shards v)
    unfolding after_write scoped_wallet moved_wallet
    paid-balances v = ground (
      arith,
      balance_of-insert m.shards paid_shards u v (scoped_wallet m.shards u price now) refl,
      wallet-balance m.shards now u,
      text_eqb_iff v u,
    )

    slots-after :
        (v : Text)
        → slots_of after_purchase v ≡ (if v == u then slots_of m u + p.slot_delta else slots_of m v)
    unfolding slots_of
    slots-after v = ground (arith, get-insert v u after m.purchased)

-- A purchase of a pack under a new operation id with shards enough, where the books balance, takes
-- its price and adds its slots, touches no other user's shards or slots, and keeps the books: all
-- in one step.
pub purchase_expands :
    (sha256 : Text → Text) (u : Text) (p : SlotPack) (operation : Text) (now : ℕ)
    (m : CapacityStore)
    → CanExpand sha256 u p operation now m
    → let (r, m') = purchase sha256 u p operation now m in
      (r ≡ ok (expanded sha256 u p operation now m))
      × (slots_of m' u ≡ slots_of m u + p.slot_delta)
      × (balance_of m'.shards u ≡ balance_of m.shards u +ℤ neg (pos p.cost_shards))
      × ((v : Text) → v ≢ u → slots_of m' v ≡ slots_of m v)
      × ((v : Text) → v ≢ u → balance_of m'.shards v ≡ balance_of m.shards v)
      × IsSound m'.shards
purchase_expands sha256 u p operation now m h =
    let slots = slots-after sha256 u p operation now m h in
    let balances = paid-balances sha256 u p operation now m h in
    rw (purchase_made sha256 u p operation now m h) (
      refl,
      ground (arith, slots u, text_eqb_iff u u),
      ground (arith, balances u, text_eqb_iff u u),
      λ v other. ground (arith, slots v, text_eqb_iff v u),
      λ v other. ground (arith, balances v, text_eqb_iff v u),
      paid-IsSound sha256 u p operation now m h,
    )

-- A retry, under its operation id, of a purchase that met `CanExpand`, at any later time and
-- whatever pack it names, changes nothing and tells the pack, the price and the slots of the first
-- call.
pub purchase_replayed :
    (sha256 : Text → Text) (u : Text) (p q : SlotPack) (operation : Text) (now later : ℕ)
    (m : CapacityStore)
    → CanExpand sha256 u p operation now m
    → let m' = (purchase sha256 u p operation now m).1 in
      purchase sha256 u q operation later m' ≡ (
        ok (record (expanded sha256 u p operation now m) {
          applied = false;
          balance = (wallet m'.shards later u).balance;
        }),
        m',
      )
unfolding purchase operation_document
purchase_replayed sha256 u p q operation now later m h =
    let found =
      get-insert_self (operation_key sha256 u operation)
        (operation_document u p (slots_of m u + p.slot_delta)) m.operations in
    rw (purchase_made sha256 u p operation now m h) (rw found refl)

-- Where the hash has no collision, two users never share the record of an operation, nor one user
-- the records of two.
pub operation_key-injective :
    (sha256 : Text → Text)
    → IsCollisionFree sha256
    → (u v d e : Text) → operation_key sha256 u d ≡ operation_key sha256 v e
    → (u ≡ v) × (d ≡ e)
unfolding operation_key
operation_key-injective sha256 free u v d e h =
    let parts : u ∷ d ∷ [] ≡ v ∷ e ∷ [] = canonical-injective _ _ (free _ _ h) in (cc, cc)
