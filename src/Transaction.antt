-- ===== src/Transaction.antt =====
-- app/shards/store.py, `InMemoryTransaction`: writes are collected and run at the commit; where
-- one raises, those that ran are undone, newest first. A write returns its undo.
pub mod Atomic
pub mod Total
pub mod Tests
use ggumirror_be.Base.{ℕ, ◌+◌, List, [], ◌∷◌, ◌++◌}
use ggumirror_be.Base.Exec.{Error, Result, ok, err}

-- What a write does when it runs: a new state with the function that takes it back, or a raise
-- before anything is written.
pub data Attempt (W : Type 0) : Type 0 where
  done : W → (W → W) → Attempt W
  failed : Error → Attempt W

abbrev pub Write : Type 0 → Type 0
Write W = W → Attempt W

pub record InMemoryTransaction (W : Type 0) : Type 0 where
  pub writes : List (Write W)
  pub commits : ℕ

abbrev pub new_transaction : {W : Type 0} → InMemoryTransaction W
new_transaction = record { writes = []; commits = 0 }

unfoldable pub add : {W : Type 0} → Write W → InMemoryTransaction W → InMemoryTransaction W
add write tx = record tx { writes = tx.writes ++ write ∷ [] }

unfoldable pub unwind : {W : Type 0} → List (W → W) → W → W
unwind [] w = w
unwind (undo ∷ undos) w = unwind undos (undo w)

-- The loop of `commit`, with the undos of the writes that ran.
unfoldable pub run_writes : {W : Type 0} → List (Write W) → List (W → W) → W → Result (Unit {0}) × W
unfolding unwind
run_writes [] undos w = (ok tt, w)
run_writes (write ∷ rest) undos w = elim (write w) [
  | done w' undo ↦ run_writes rest (undo ∷ undos) w'
  | failed e ↦ (err e, unwind undos w)
]

abbrev count_commit :
    {W : Type 0} → Result (Unit {0}) → InMemoryTransaction W → InMemoryTransaction W
count_commit (ok _) tx = record { writes = []; commits = tx.commits + 1 }
count_commit (err _) tx = record { writes = []; commits = tx.commits }

unfoldable pub commit :
    {W : Type 0} → InMemoryTransaction W → W → Result (Unit {0}) × InMemoryTransaction W × W
commit tx w = let (r, w') = run_writes tx.writes [] w in (r, count_commit r tx, w')

-- A write of one part of a larger state.
abbrev within_attempt : {S W : Type 0} → (W → S) → (S → W → W) → W → Attempt S → Attempt W
within_attempt view put w (done s undo) = done (put s w) (λ w'. put (undo (view w')) w')
within_attempt view put w (failed e) = failed e

unfoldable pub within : {S W : Type 0} → (W → S) → (S → W → W) → Write S → Write W
within view put write w = within_attempt view put w (write (view w))
