-- ===== src/Transaction/Total.antt =====
-- Writes that never raise, as the ledger's are, in a commit (app/shards/store.py).
use ggumirror_be.Base.{refl, ◌≡◌, List, [], ◌∷◌, ◌++◌, map}
use ggumirror_be.Base.Exec.{Result}
use ggumirror_be.Transaction.{Attempt, Write, done, failed, run_writes, within}

abbrev pub AllTotal : {W : Type 0} → List (Write W) → Type 0
AllTotal [] = Unit {0}
AllTotal {W} (write ∷ rest) =
    ((w : W) → (p : W × (W → W)) × (write w ≡ done p.0 p.1)) × AllTotal rest

pub AllTotal-append :
    {W : Type 0} (writes : List (Write W)) (write : Write W)
    → AllTotal writes
    → ((w : W) → (p : W × (W → W)) × (write w ≡ done p.0 p.1))
    → AllTotal (writes ++ write ∷ [])
AllTotal-append [] write h t = (t, tt)
AllTotal-append (x ∷ xs) write h t = (h.0, AllTotal-append xs write h.1 t)

-- Writes of a part that never raise leave it to the rest of the run how the commit ends; the rest
-- meets a state that differs from the first one in the part only.
pub run_writes-within :
    {S W : Type 0} (P : Result (Unit {0}) × W → Type 0) (view : W → S) (put : S → W → W)
    → ((s t : S) (w : W) → put s (put t w) ≡ put s w)
    → (writes : List (Write S)) (rest : List (Write W)) → AllTotal writes
    → (w : W) → ((s : S) (undos : List (W → W)) → P (run_writes rest undos (put s w)))
    → (s : S) (undos : List (W → W))
    → P (run_writes (map (within view put) writes ++ rest) undos (put s w))
unfolding run_writes within
run_writes-within P view put over [] rest h w ends s undos = ends s undos
run_writes-within P view put over (write ∷ writes) rest h w ends s undos =
    let (p, e) = h.0 (view (put s w)) in
    rw (e, run_writes, over p.0 s w)
      (run_writes-within P view put over writes rest h.1 w ends p.0 _)

-- The state that writes which never raise make, one after the other.
abbrev after_attempt : {W : Type 0} → W → Attempt W → W
after_attempt w (done w' undo) = w'
after_attempt w (failed e) = w

unfoldable pub final_state : {W : Type 0} → List (Write W) → W → W
final_state [] w = w
final_state (write ∷ rest) w = final_state rest (after_attempt w (write w))

pub final_state-append :
    {W : Type 0} (writes : List (Write W)) (write : Write W) (w : W)
    → final_state (writes ++ write ∷ []) w
      ≡ after_attempt (final_state writes w) (write (final_state writes w))
unfolding final_state
final_state-append [] write w = refl
final_state-append (x ∷ xs) write w = final_state-append xs write (after_attempt w (x w))

-- The rest of the run meets that state of the part.
pub run_writes-final :
    {S W : Type 0} (P : Result (Unit {0}) × W → Type 0) (view : W → S) (put : S → W → W)
    → ((s t : S) (w : W) → put s (put t w) ≡ put s w)
    → ((s : S) (w : W) → view (put s w) ≡ s)
    → (writes : List (Write S)) (rest : List (Write W)) → AllTotal writes
    → (w : W) (s : S)
    → ((undos : List (W → W)) → P (run_writes rest undos (put (final_state writes s) w)))
    → (undos : List (W → W)) → P (run_writes (map (within view put) writes ++ rest) undos (put s w))
unfolding run_writes within final_state
run_writes-final P view put over seen [] rest h w s ends undos = ends undos
run_writes-final P view put over seen (write ∷ writes) rest h w s ends undos =
    let (p, e) = h.0 s in
    rw (seen s w, e, run_writes, over p.0 s w)
      (run_writes-final P view put over seen writes rest h.1 w p.0 (rw e at ends) _)
