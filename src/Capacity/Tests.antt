-- ===== src/Capacity/Tests.antt =====
-- The theorems on slots at a concrete store.
use ggumirror_be.Base.{◌+◌, ◌≡◌, refl, ◌≢◌, [], arith}
use ggumirror_be.Base.Int.{pos, neg, ◌+ℤ◌}
use ggumirror_be.Base.Text.{Text, codes, text_eqb, text_eq}
use ggumirror_be.Base.Dict.{get, insert}
use ggumirror_be.Base.Exec.{ok}
use ggumirror_be.Canonical.{canonical, part, rest_parts, length, decimal, digits}
use ggumirror_be.Capacity.{CapacityStore, mirror_slot_pack, slots_of, purchase}
use ggumirror_be.Capacity.Laws.{CanExpand, expanded, purchase_expands}
use ggumirror_be.Shards.Models.{reason_value, empty_wallet}
use ggumirror_be.Shards.Keys.{idempotency_hash}
use ggumirror_be.Shards.Store.{
  empty_store, wallet, apply, apply_new, write_change, changed_entry, changed_wallet, new_entry,
  moved_wallet, already_applied, quota_full, claim_conflict,
}
use ggumirror_be.Shards.Ledger.{IsSound, balance_of}
use ggumirror_be.Shards.Tests.{plain, alice, granted, granted-IsSound}

abbrev rooms : CapacityStore
rooms = record { purchased = []; operations = []; shards = granted }

alice-CanExpand : CanExpand plain alice mirror_slot_pack (codes "op1") 12 rooms
unfolding apply apply_new claim_conflict already_applied quota_full get wallet empty_wallet ◌+ℤ◌
    write_change changed_wallet changed_entry moved_wallet new_entry insert balance_of
    idempotency_hash canonical part rest_parts length decimal digits reason_value text_eqb
alice-CanExpand = record {
  sound = granted-IsSound;
  new = refl;
  unpaid = refl;
  priced = omega arith;
  movable = omega arith;
  enough = omega arith;
}

purchase_expands_example :
    let (r, m') = purchase plain alice mirror_slot_pack (codes "op1") 12 rooms in
    (r ≡ ok (expanded plain alice mirror_slot_pack (codes "op1") 12 rooms))
    × (slots_of m' alice ≡ slots_of rooms alice + 5)
    × (balance_of m'.shards alice ≡ balance_of granted alice +ℤ neg (pos 10))
    × ((v : Text) → v ≢ alice → slots_of m' v ≡ slots_of rooms v)
    × ((v : Text) → v ≢ alice → balance_of m'.shards v ≡ balance_of granted v)
    × IsSound m'.shards
purchase_expands_example =
    purchase_expands plain alice mirror_slot_pack (codes "op1") 12 rooms alice-CanExpand

abbrev penniless : CapacityStore
penniless = record rooms { shards = empty_store }
