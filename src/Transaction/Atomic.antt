-- ===== src/Transaction/Atomic.antt =====
-- The commit of `InMemoryTransaction` (app/shards/store.py) beside the sequence of its writes.
use ggumirror_be.Base.{◌≡◌, refl, ◌⊎◌, inl, inr, List, [], ◌∷◌}
use ggumirror_be.Base.Exec.{Error, Result, ok, err}
use ggumirror_be.Transaction.{
  Attempt, done, failed, Write, InMemoryTransaction, unwind, run_writes, commit,
}

-- Along the run, each undo takes back its own write.
abbrev pub UndoesStep : {W : Type 0} → (W → Type 0) → W → Attempt W → Type 0
UndoesStep rest w (done w' undo) = (undo w' ≡ w) × rest w'
UndoesStep rest w (failed e) = Unit {0}

abbrev pub Undoes : {W : Type 0} → List (Write W) → W → Type 0
Undoes [] w = Unit {0}
Undoes (write ∷ rest) w = UndoesStep (Undoes rest) w (write w)

-- The state that all the writes make, one after the other, if none raises.
abbrev after_attempt : {W : Type 0} → (W → Result W) → Attempt W → Result W
after_attempt rest (done w' undo) = rest w'
after_attempt rest (failed e) = err e

abbrev pub sequence : {W : Type 0} → List (Write W) → W → Result W
sequence [] w = ok w
sequence (write ∷ rest) w = after_attempt (sequence rest) (write w)

-- The result and the state that a commit leaves, given the sequence and the state before it.
abbrev pub Settles : {W : Type 0} → Result W → W → Result (Unit {0}) × W → Type 0
Settles (ok final) start out = out ≡ (ok tt, final)
Settles (err e) start out = out ≡ (err e, start)

Attempt-cases :
    {W : Type 0} (a : Attempt W)
    → ((p : W × (W → W)) × (a ≡ done p.0 p.1)) ⊎ ((e : Error) × (a ≡ failed e))
Attempt-cases (done w undo) = inl ((w, undo), refl)
Attempt-cases (failed e) = inr (e, refl)

run_writes-Settles :
    {W : Type 0} (writes : List (Write W)) (undos : List (W → W)) (w : W)
    → Undoes writes w
    → Settles (sequence writes w) (unwind undos w) (run_writes writes undos w)
unfolding run_writes unwind
run_writes-Settles [] undos w h = refl
run_writes-Settles {W} (write ∷ rest) undos w h = elim (Attempt-cases (write w)) [
  | inl ((w', undo), e) ↦
      let k : (undo w' ≡ w) × Undoes rest w' = rw e at h in
      rw e (rw k.0 at (run_writes-Settles rest (undo ∷ undos) w' k.1))
  | inr (e, p) ↦ rw p refl
]

-- Where each write can be taken back, a commit leaves the state that all its writes make one after
-- the other, or raises the error of the first that fails and leaves the state as it was before it.
pub commit-Settles :
    {W : Type 0} (tx : InMemoryTransaction W) (w : W)
    → Undoes tx.writes w
    → Settles (sequence tx.writes w) w ((commit tx w).0, (commit tx w).2)
unfolding commit unwind
commit-Settles tx w h = run_writes-Settles tx.writes [] w h
