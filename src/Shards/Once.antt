-- ===== src/Shards/Once.antt =====
-- How often an external event stands in the ledger (app/shards/store.py): the index `_applied` against
-- the entries, under the writes of `apply` and of a caller's transaction.
use ggumirror_be.Base.{
  ℕ, ◌+◌, ◌≤◌, ◌≡◌, refl, inl, inr, Bool, false, Option, none, some, List, [], ◌∷◌, ◌++◌, arith,
  if◌then◌else◌, Option-cases, ap, ◌∙◌, sym,
}
use ggumirror_be.Base.Text.{Text, text_eq, text_eqb_iff, ◌==◌}
use ggumirror_be.Base.Dict.{get, insert, get-insert}
use ggumirror_be.Shards.Models.{ShardLedgerEntry}
use ggumirror_be.Shards.Store.{
  ShardStore, Change, apply, write_change, changed_entry, new_entry, already_applied,
}
use ggumirror_be.Shards.ApplyLaws.{apply-state}

abbrev pub is_key : Option Text → Text → Bool
is_key none key = false
is_key (some k) key = k == key

-- How many ledger lines carry a key.
unfoldable pub key_count : Text → List ShardLedgerEntry → ℕ
key_count key [] = 0
key_count key (e ∷ es) = (if is_key e.idempotency_key_hash key then 1 else 0) + key_count key es

pub record IsIndexed (s : ShardStore) : Type 0 where
  pub missing : (key : Text) → get key s.applied ≡ none → key_count key s.entries ≡ 0
  pub once : (key : Text) → key_count key s.entries ≤ 1

pub key_count-append :
    (key : Text) (es : List ShardLedgerEntry) (e : ShardLedgerEntry)
    → key_count key (es ++ e ∷ [])
      ≡ key_count key es + (if is_key e.idempotency_key_hash key then 1 else 0)
unfolding key_count
key_count-append key [] e = omega arith
key_count-append key (x ∷ es) e = ground (arith, key_count-append key es e)

-- A ledger line under a key that was free, or under no key.
pub keyed_line-IsIndexed :
    (s s' : ShardStore) (e : ShardLedgerEntry) (key : Text)
    → e.idempotency_key_hash ≡ some key
    → get key s.applied ≡ none
    → s'.entries ≡ s.entries ++ e ∷ []
    → s'.applied ≡ insert key e s.applied
    → IsIndexed s
    → IsIndexed s'
keyed_line-IsIndexed s s' e key k free es ix h = record {
  missing = λ j m. ground (
    arith,
    ap (key_count j) es ∙ key_count-append j s.entries e,
    ap (get j) ix ∙ get-insert j key e s.applied,
    h.missing j,
    text_eqb_iff j key,
    text_eqb_iff key j,
  );
  once = λ j. ground (
    arith,
    ap (key_count j) es ∙ key_count-append j s.entries e,
    h.once j,
    h.missing key free,
    text_eqb_iff key j,
  );
}

unkeyed_line-IsIndexed :
    (s s' : ShardStore) (e : ShardLedgerEntry)
    → e.idempotency_key_hash ≡ none
    → s'.entries ≡ s.entries ++ e ∷ []
    → s'.applied ≡ s.applied
    → IsIndexed s
    → IsIndexed s'
unkeyed_line-IsIndexed s s' e k es ix h = record {
  missing = λ j m.
      ground
        (arith, ap (key_count j) es ∙ key_count-append j s.entries e, ap (get j) ix, h.missing j);
  once = λ j. ground (arith, ap (key_count j) es ∙ key_count-append j s.entries e, h.once j);
}

write_change-IsIndexed :
    (c : Change) (fresh : Text) (now : ℕ) (s : ShardStore)
    → already_applied s c.key ≡ none
    → IsIndexed s
    → IsIndexed (write_change s c fresh now)
unfolding write_change changed_entry new_entry already_applied
write_change-IsIndexed c fresh now s free h = elim (Option-cases c.key) [
  | inl e ↦ unkeyed_line-IsIndexed s _ (changed_entry s c fresh now) e refl (rw e refl) h
  | inr (key, e) ↦
      keyed_line-IsIndexed s _ (changed_entry s c fresh now) key e
        (ap (already_applied s) (sym e) ∙ free) refl (rw e refl) h
]

-- Where it held before, it holds after any call of `apply`: each key is in the ledger at most once,
-- and one that the index does not know is not in it.
pub apply-IsIndexed :
    (c : Change) (fresh : Text) (now : ℕ) (s : ShardStore)
    → IsIndexed s
    → IsIndexed (apply c fresh now s).1
apply-IsIndexed c fresh now s h = elim (apply-state c fresh now s) [
  | inl same ↦ rw same h
  | inr (written, _, free, _) ↦ rw written (write_change-IsIndexed c fresh now s free h)
]
