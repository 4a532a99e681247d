-- ===== src/Ai/Leases.antt =====
-- Late workers (app/ai/store.py): a call whose lease another call has taken over.
use ggumirror_be.Base.{
  ℕ, ◌≤◌, ◌<◌, ◌≡◌, inl, inr, Option, none, some, List, [], ◌∷◌, arith, Option-cases,
}
use ggumirror_be.Base.Text.{Text, text_eq, text_eqb_iff}
use ggumirror_be.Base.Dict.{get, get-insert}
use ggumirror_be.Ai.Models.{Generation, is_lease_expired}
use ggumirror_be.Ai.Store.{
  Generations, Finish, create_pending, finish, finished, steal_expired, stolen,
}
use ggumirror_be.Ai.Transitions.{StoreCall, create, finish_with, steal, run_call, run_calls}

-- The clock does not run backwards from `now` on.
abbrev pub IsLater : ℕ → StoreCall → Type 0
IsLater now (steal id t) = now ≤ t
IsLater now _ = Unit {0}

abbrev pub AllLater : ℕ → List StoreCall → Type 0
AllLater now [] = Unit {0}
AllLater now (c ∷ cs) = IsLater now c × AllLater now cs

-- A lease that ends after `limit`, or none.
abbrev Beyond : ℕ → Option ℕ → Type 0
Beyond limit none = Unit {0}
Beyond limit (some t) = limit < t

abbrev HasLeaseBeyond : ℕ → Option Generation → Type 0
HasLeaseBeyond limit none = ⊥
HasLeaseBeyond limit (some g) = Beyond limit g.lease_expires_at

finish-beyond :
    (id j : Text) (f : Finish) (t limit : ℕ) (d : Generations)
    → HasLeaseBeyond limit (get id d)
    → HasLeaseBeyond limit (get id (finish j f t d).1)
unfolding finish finished
finish-beyond id j f t limit d h = elim (Option-cases (get j d)) [
  | inl e ↦ rw e h
  | inr (g, e) ↦ ground (arith, e, get-insert id j (finished g f t) d, text_eqb_iff id j)
]

steal-beyond :
    (id j : Text) (t limit : ℕ) (d : Generations)
    → limit ≤ t
    → HasLeaseBeyond limit (get id d)
    → HasLeaseBeyond limit (get id (steal_expired j t d).1)
unfolding steal_expired stolen
steal-beyond id j t limit d later h = elim (Option-cases (get j d)) [
  | inl e ↦ rw e h
  | inr (g, e) ↦ ground (arith, e, get-insert id j (stolen g t) d, text_eqb_iff id j)
]

create-beyond :
    (id : Text) (g : Generation) (limit : ℕ) (d : Generations)
    → HasLeaseBeyond limit (get id d)
    → HasLeaseBeyond limit (get id (create_pending g d).1)
unfolding create_pending
create-beyond id g limit d h = elim (Option-cases (get g.id d)) [
  | inl e ↦ ground (arith, e, get-insert id g.id g d, text_eqb_iff id g.id)
  | inr (k, e) ↦ rw e h
]

calls-beyond :
    (id : Text) (limit : ℕ) (cs : List StoreCall) (d : Generations)
    → AllLater limit cs
    → HasLeaseBeyond limit (get id d)
    → HasLeaseBeyond limit (get id (run_calls cs d))
unfolding run_calls run_call
calls-beyond id limit [] d later h = h
calls-beyond id limit (create g ∷ cs) d later h =
    calls-beyond id limit cs _ later.1 (create-beyond id g limit d h)
calls-beyond id limit (finish_with j f t ∷ cs) d later h =
    calls-beyond id limit cs _ later.1 (finish-beyond id j f t limit d h)
calls-beyond id limit (steal j t ∷ cs) d later h =
    calls-beyond id limit cs _ later.1 (steal-beyond id j t limit d later.0 h)

beyond-refused :
    (id : Text) (f : Finish) (t limit : ℕ) (d : Generations)
    → f.expected_lease ≡ some limit
    → HasLeaseBeyond limit (get id d)
    → finish id f t d ≡ (none, d)
unfolding finish
beyond-refused id f t limit d e h = ground arith

steal-starts :
    (id : Text) (now limit : ℕ) (g h : Generation) (d : Generations)
    → get id d ≡ some g
    → g.lease_expires_at ≡ some limit
    → (steal_expired id now d).0 ≡ some h
    → (limit ≤ now) × HasLeaseBeyond limit (get id (steal_expired id now d).1)
unfolding steal_expired stolen is_lease_expired
steal-starts id now limit g h d e l s =
    ground (arith, get-insert id id (stolen g now) d, text_eqb_iff id id)

AllLater-mono : (a b : ℕ) (cs : List StoreCall) → a ≤ b → AllLater b cs → AllLater a cs
AllLater-mono a b [] le h = h
AllLater-mono a b (create g ∷ cs) le h = (tt, AllLater-mono a b cs le h.1)
AllLater-mono a b (finish_with j f t ∷ cs) le h = (tt, AllLater-mono a b cs le h.1)
AllLater-mono a b (steal j t ∷ cs) le h = (omega (arith, h.0), AllLater-mono a b cs le h.1)

-- Once another call has taken a job's lease over, whatever calls of the store come next, as long as
-- the clock does not run backwards, a call that finishes the job under the old lease is refused and
-- changes nothing.
pub late_finish_refused :
    (id : Text) (now limit t : ℕ) (g h : Generation) (d : Generations) (cs : List StoreCall)
    (f : Finish)
    → get id d ≡ some g
    → g.lease_expires_at ≡ some limit
    → (steal_expired id now d).0 ≡ some h
    → AllLater now cs
    → f.expected_lease ≡ some limit
    → let d' = run_calls cs (steal_expired id now d).1 in finish id f t d' ≡ (none, d')
late_finish_refused id now limit t g h d cs f e l s later expected =
    let start = steal-starts id now limit g h d e l s in
    beyond-refused id f t limit _ expected
      (calls-beyond id limit cs _ (AllLater-mono limit now cs start.0 later) start.1)
