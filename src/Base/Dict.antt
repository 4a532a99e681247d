-- ===== src/Base/Dict.antt =====
-- Python's `dict` in insertion order.
use ggumirror_be.Base.Tests.{if◌then◌else◌}
use ggumirror_be.Base.Text.{Eq, ◌==◌}
use mathlib.Core.Path.{◌≡◌, refl}
use mathlib.Core.Bool.{Bool, true, false}
use mathlib.Core.Option.{Option, none, some}
use mathlib.Core.List.{List, [], ◌∷◌, ◌++◌, map}
use native.Mathlib.Omega.{arith}

abbrev pub Dict : Type 0 → Type 0 → Type 0
Dict K V = List (K × V)

module _ {K V : Type 0} ⦃e : Eq K⦄ where
  -- `d.get(k)`
  unfoldable pub get : K → Dict K V → Option V
  get k [] = none
  get k ((j, v) ∷ d) = if k == j then some v else get k d

  -- `d[k] = v`: an old key keeps its place, a new key comes last.
  unfoldable pub insert : K → V → Dict K V → Dict K V
  insert k v [] = (k, v) ∷ []
  insert k v ((j, w) ∷ d) = if k == j then (j, v) ∷ d else (j, w) ∷ insert k v d

  -- `d.pop(k, None)`
  unfoldable pub erase : K → Dict K V → Dict K V
  erase k [] = []
  erase k ((j, w) ∷ d) = if k == j then d else (j, w) ∷ erase k d

  pub get-insert :
      (j k : K) (v : V) (d : Dict K V) → get j (insert k v d) ≡ (if j == k then some v else get j d)
  unfolding get insert
  get-insert j k v [] = refl
  get-insert j k v ((i, w) ∷ d) =
      ground (arith, e.beq_iff j k, e.beq_iff k i, e.beq_iff j i, get-insert j k v d)

  pub get-insert_self : (k : K) (v : V) (d : Dict K V) → get k (insert k v d) ≡ some v
  get-insert_self k v d = ground (arith, get-insert k k v d, e.beq_iff k k)

  -- Popping a key that was new restores the dictionary.
  pub erase-insert : (k : K) (v : V) (d : Dict K V) → get k d ≡ none → erase k (insert k v d) ≡ d
  unfolding get insert erase
  erase-insert k v [] h = ground (arith, e.beq_iff k k)
  erase-insert k v ((j, w) ∷ d) h = ground (arith, e.beq_iff k j, erase-insert k v d)

  -- Writing the old value back restores the dictionary.
  pub insert-insert :
      (k : K) (v w : V) (d : Dict K V) → get k d ≡ some w → insert k w (insert k v d) ≡ d
  unfolding get insert
  insert-insert k v w [] h = cc
  insert-insert k v w ((j, u) ∷ d) h = ground (arith, e.beq_iff k j, insert-insert k v w d)

  -- Popping another key does not touch this one.
  pub get-erase : (j k : K) (d : Dict K V) → (j == k) ≡ false → get j (erase k d) ≡ get j d
  unfolding get erase
  get-erase j k [] h = refl
  get-erase j k ((i, w) ∷ d) h =
      ground (arith, e.beq_iff j k, e.beq_iff k i, e.beq_iff j i, get-erase j k d h)

  -- `k in d`
  abbrev pub contains : K → Dict K V → Bool
  contains k d = elim (get k d) [ none ↦ false | some _ ↦ true ]

-- `d.values()`
unfoldable pub values : {K V : Type 0} → Dict K V → List V
values d = map (λ p. p.1) d

-- A new key puts its value last.
pub values-insert :
    {K V : Type 0} ⦃e : Eq K⦄ (k : K) (v : V) (d : Dict K V)
    → get k d ≡ none
    → values (insert k v d) ≡ values d ++ v ∷ []
unfolding get insert values
values-insert k v [] h = refl
values-insert k v ((j, w) ∷ d) h = ground (arith, values-insert k v d)
