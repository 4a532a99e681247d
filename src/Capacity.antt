-- ===== src/Capacity.antt =====
-- app/capacity: room for more mirrors, bought with shards. models.py and the in-memory store of
-- store.py; a user's slots, the record of the purchase and the shards are one commit.
pub mod Laws
pub mod Failures
pub mod Tests
use ggumirror_be.Base.{ℕ, ◌+◌, Bool, true, false, Option, none, some, List, [], ◌∷◌, ◌++◌, map}
use ggumirror_be.Base.Int.{ℤ, pos, neg}
use ggumirror_be.Base.Text.{Text, codes, text_eq}
use ggumirror_be.Base.Dict.{Dict, get, insert, erase}
use ggumirror_be.Base.Exec.{Result, ok, err, or_raise, unknown_pack}
use ggumirror_be.Canonical.{canonical}
use ggumirror_be.Shards.Models.{mirror_capacity_purchase}
use ggumirror_be.Shards.Store.{ShardStore, wallet}
use ggumirror_be.Shards.Scoped.{Staged, context}
use ggumirror_be.Shards.Service.{scoped_change}
use ggumirror_be.Transaction.{Write, done, InMemoryTransaction, commit, within}

abbrev pub base_mirror_slots : ℕ
base_mirror_slots = 5

pub record SlotPack : Type 0 where
  pub id : Text
  pub cost_shards : ℕ
  pub slot_delta : ℕ

abbrev pub mirror_slot_pack : SlotPack
mirror_slot_pack = record { id = codes "mirror_slots_5"; cost_shards = 10; slot_delta = 5 }

abbrev pub packs : Dict Text SlotPack
packs = (mirror_slot_pack.id, mirror_slot_pack) ∷ []

unfoldable pub pack : Text → Result SlotPack
pack id = or_raise (get id packs) unknown_pack

pub record MirrorCapacity : Type 0 where
  pub user_id : Text
  pub purchased_slots : ℕ

unfoldable pub effective_slots : MirrorCapacity → ℕ
effective_slots c = base_mirror_slots + c.purchased_slots

pub record CapacityPurchaseResult : Type 0 where
  pub operation_id : Text
  pub pack_id : Text
  pub charged_shards : ℕ
  pub slot_delta : ℕ
  pub applied : Bool
  pub capacity : MirrorCapacity
  pub balance : ℤ

-- The document of `_operation_document`.
pub record Operation : Type 0 where
  pub user_id : Text
  pub pack_id : Text
  pub cost_shards : ℕ
  pub slot_delta : ℕ
  pub purchased_slots_after : ℕ

-- `InMemoryCapacityStore`, with the ledger that its transactions change.
pub record CapacityStore : Type 0 where
  pub purchased : Dict Text ℕ
  pub operations : Dict Text Operation
  pub shards : ShardStore

abbrev slots_or : Option ℕ → ℕ
slots_or none = 0
slots_or (some n) = n

unfoldable pub slots_of : CapacityStore → Text → ℕ
slots_of m u = slots_or (get u m.purchased)

unfoldable pub capacity : CapacityStore → Text → MirrorCapacity
capacity m u = record { user_id = u; purchased_slots = slots_of m u }

unfoldable pub operation_key : (Text → Text) → Text → Text → Text
operation_key sha256 u operation = sha256 (canonical (u ∷ operation ∷ []))

unfoldable pub operation_document : Text → SlotPack → ℕ → Operation
operation_document u p after = record {
  user_id = u;
  pack_id = p.id;
  cost_shards = p.cost_shards;
  slot_delta = p.slot_delta;
  purchased_slots_after = after;
}

abbrev restore_slots : Text → Option ℕ → Dict Text ℕ → Dict Text ℕ
restore_slots u none d = erase u d
restore_slots u (some n) d = insert u n d

unfoldable pub write_slots : Text → ℕ → Text → Operation → Write CapacityStore
write_slots u after key document m =
    done
      (record m {
        purchased = insert u after m.purchased;
        operations = insert key document m.operations;
      })
      (λ m'. record m' {
        purchased = restore_slots u (get u m.purchased) m'.purchased;
        operations = erase key m'.operations;
      })

unfoldable pub put_shards : ShardStore → CapacityStore → CapacityStore
put_shards s m = record m { shards = s }

unfoldable pub capacity_transaction :
    List (Write ShardStore) → Write CapacityStore → InMemoryTransaction CapacityStore
capacity_transaction shard_writes write = record {
  writes = map (within (λ m. m.shards) put_shards) shard_writes ++ write ∷ [];
  commits = 0;
}

abbrev settled : {A : Type 0} → A → Result (Unit {0}) → Result A
settled a (ok _) = ok a
settled a (err e) = err e

module _ (sha256 : Text → Text) where
  unfoldable pub purchase_commit :
      Text
      → SlotPack
      → Text
      → CapacityStore
      → Staged
      → Result CapacityPurchaseResult × CapacityStore
  purchase_commit u p operation m st =
      let after = slots_of m u + p.slot_delta in
      let (r, _, m') =
        commit
          (capacity_transaction st.context.transaction.writes
            (write_slots u after (operation_key sha256 u operation) (operation_document u p after)))
          m in
      (
        settled
            (record {
              operation_id = operation;
              pack_id = p.id;
              charged_shards = p.cost_shards;
              slot_delta = p.slot_delta;
              applied = st.applied;
              capacity = record { user_id = u; purchased_slots = after };
              balance = st.wallet.balance;
            })
            r,
        m',
      )

  abbrev pub purchase_staged :
      Text
      → SlotPack
      → Text
      → CapacityStore
      → Result Staged
      → Result CapacityPurchaseResult × CapacityStore
  purchase_staged u p operation m (err e) = (err e, m)
  purchase_staged u p operation m (ok st) = purchase_commit u p operation m st

  -- An operation that was processed before answers as it did then.
  abbrev pub purchase_new :
      Text
      → SlotPack
      → Text
      → ℕ
      → CapacityStore
      → Option Operation
      → Result CapacityPurchaseResult × CapacityStore
  purchase_new u p operation now m (some o) = (
    ok (record {
      operation_id = operation;
      pack_id = o.pack_id;
      charged_shards = o.cost_shards;
      slot_delta = o.slot_delta;
      applied = false;
      capacity = record { user_id = u; purchased_slots = o.purchased_slots_after };
      balance = (wallet m.shards now u).balance;
    }),
    m,
  )
  purchase_new u p operation now m none = purchase_staged u p operation m (
      scoped_change sha256 m.shards context u (neg (pos p.cost_shards)) mirror_capacity_purchase
        operation now)

  unfoldable pub purchase :
      Text → SlotPack → Text → ℕ → CapacityStore → Result CapacityPurchaseResult × CapacityStore
  purchase u p operation now m =
      purchase_new u p operation now m (get (operation_key sha256 u operation) m.operations)
