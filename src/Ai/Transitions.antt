-- ===== src/Ai/Transitions.antt =====
-- The states of a job along every sequence of calls of the store (app/ai/store.py), with any
-- arguments, in any order: what other workers and late ones may do.
use ggumirror_be.Base.{
  ℕ, ◌+◌, ◌≤◌, ◌<◌, ◌≡◌, ◌↔◌, refl, inl, inr, true, Option, none, some, List, [], ◌∷◌, arith,
  if◌then◌else◌, Option-cases,
}
use ggumirror_be.Base.Text.{Text, text_eq, text_eqb_iff, ◌==◌}
use ggumirror_be.Base.Dict.{get, get-insert}
use ggumirror_be.Ai.Models.{
  Generation, GenerationStatus, pending, succeeded, failed, refunded, is_terminal, can_transition,
  is_lease_expired,
}
use ggumirror_be.Ai.Store.{
  Generations, Finish, create_pending, finish, finished, steal_expired, stolen,
}

-- The diagram that the documentation of `GenerationStatus` draws.
pub data Arrow : GenerationStatus → GenerationStatus → Type 0 where
  succeed : Arrow pending succeeded
  give_back : Arrow pending refunded
  fail : Arrow pending failed
  give_back_later : Arrow failed refunded

allowed : (a b : GenerationStatus) → can_transition a b ≡ true → Arrow a b
unfolding can_transition
allowed pending pending h = cc
allowed pending succeeded h = succeed
allowed pending failed h = fail
allowed pending refunded h = give_back
allowed failed pending h = cc
allowed failed succeeded h = cc
allowed failed failed h = cc
allowed failed refunded h = give_back_later
allowed succeeded b h = cc
allowed refunded b h = cc

drawn : {a b : GenerationStatus} → Arrow a b → can_transition a b ≡ true
unfolding can_transition
drawn succeed = refl
drawn give_back = refl
drawn fail = refl
drawn give_back_later = refl

-- The code's test allows a transition exactly when the documented diagram has an arrow for it.
pub can_transition_iff : (a b : GenerationStatus) → (can_transition a b ≡ true) ↔ Arrow a b
can_transition_iff a b = (allowed a b, drawn)

-- One call of a store method; `run_calls` makes them in turn.
pub data StoreCall : Type 0 where
  create : Generation → StoreCall
  finish_with : Text → Finish → ℕ → StoreCall
  steal : Text → ℕ → StoreCall

unfoldable pub run_call : StoreCall → Generations → Generations
run_call (create g) d = (create_pending g d).1
run_call (finish_with id f now) d = (finish id f now d).1
run_call (steal id now) d = (steal_expired id now d).1

unfoldable pub run_calls : List StoreCall → Generations → Generations
run_calls [] d = d
run_calls (c ∷ cs) d = run_calls cs (run_call c d)

-- How many more transitions a state allows at most; one for a job that is not there yet.
abbrev pub rank : GenerationStatus → ℕ
rank pending = 2
rank failed = 1
rank _ = 0

abbrev pub rank_of : Option Generation → ℕ
rank_of none = 2
rank_of (some g) = rank g.status

-- 1 for a call that finishes this job, 0 for any other.
abbrev is_made : Option Generation → ℕ
is_made none = 0
is_made (some g) = 1

unfoldable pub finishes_now : Text → StoreCall → Generations → ℕ
finishes_now id (finish_with j f now) d = if id == j then is_made (finish j f now d).0 else 0
finishes_now id _ d = 0

-- The calls of `finish` on one job that go through, along a sequence of calls.
unfoldable pub finishes : Text → List StoreCall → Generations → ℕ
finishes id [] d = 0
finishes id (c ∷ cs) d = finishes_now id c d + finishes id cs (run_call c d)

rank-can_transition : (a b : GenerationStatus) → can_transition a b ≡ true → rank b < rank a
unfolding can_transition
rank-can_transition a b h = ground arith

finish-rank :
    (id j : Text) (f : Finish) (now : ℕ) (d : Generations)
    → finishes_now id (finish_with j f now) d + rank_of (get id (finish j f now d).1)
      ≤ rank_of (get id d)
unfolding finishes_now finish finished
finish-rank id j f now d = elim (Option-cases (get j d)) [
  | inl e ↦ rw e (ground arith)
  | inr (g, e) ↦ ground (
    arith,
    e,
    get-insert id j (finished g f now) d,
    text_eqb_iff id j,
    rank-can_transition g.status f.status,
  )
]

steal-rank :
    (id j : Text) (now : ℕ) (d : Generations)
    → rank_of (get id (steal_expired j now d).1) ≡ rank_of (get id d)
unfolding steal_expired stolen is_lease_expired
steal-rank id j now d = elim (Option-cases (get j d)) [
  | inl e ↦ rw e refl
  | inr (g, e) ↦ ground (arith, e, get-insert id j (stolen g now) d, text_eqb_iff id j)
]

create-rank :
    (id : Text) (g : Generation) (d : Generations)
    → rank_of (get id (create_pending g d).1) ≤ rank_of (get id d)
unfolding create_pending
create-rank id g d = elim (Option-cases (get g.id d)) [
  | inl e ↦ ground (arith, e, get-insert id g.id g d, text_eqb_iff id g.id)
  | inr (h, e) ↦ rw e (omega arith)
]

call-rank :
    (id : Text) (c : StoreCall) (d : Generations)
    → finishes_now id c d + rank_of (get id (run_call c d)) ≤ rank_of (get id d)
unfolding run_call finishes_now
call-rank id (create g) d = omega (arith, create-rank id g d)
call-rank id (finish_with j f now) d = finish-rank id j f now d
call-rank id (steal j now) d = omega (arith, steal-rank id j now d)

finishes-rank :
    (id : Text) (cs : List StoreCall) (d : Generations)
    → finishes id cs d + rank_of (get id (run_calls cs d)) ≤ rank_of (get id d)
unfolding finishes run_calls
finishes-rank id [] d = omega arith
finishes-rank id (c ∷ cs) d = omega (arith, call-rank id c d, finishes-rank id cs (run_call c d))

rank_of-le : (g : Option Generation) → rank_of g ≤ 2
rank_of-le g = ground arith

-- Along any sequence of calls of the store, with any arguments, at most two of the calls that
-- finish one job go through.
pub finishes_bounded : (id : Text) (cs : List StoreCall) (d : Generations) → finishes id cs d ≤ 2
finishes_bounded id cs d = omega (arith, finishes-rank id cs d, rank_of-le (get id d))

finish-terminal :
    (id j : Text) (f : Finish) (now : ℕ) (d : Generations) (g : Generation)
    → get id d ≡ some g
    → is_terminal g.status ≡ true
    → get id (finish j f now d).1 ≡ some g
unfolding finish finished can_transition is_terminal
finish-terminal id j f now d g e t = elim (Option-cases (get j d)) [
  | inl none_there ↦ rw none_there e
  | inr (h, there) ↦
      ground (arith, e, there, get-insert id j (finished h f now) d, text_eqb_iff id j)
]

steal-terminal :
    (id j : Text) (now : ℕ) (d : Generations) (g : Generation)
    → get id d ≡ some g
    → is_terminal g.status ≡ true
    → get id (steal_expired j now d).1 ≡ some g
unfolding steal_expired is_lease_expired is_terminal
steal-terminal id j now d g e t = elim (Option-cases (get j d)) [
  | inl none_there ↦ rw none_there e
  | inr (h, there) ↦ ground (arith, e, there, get-insert id j (stolen h now) d, text_eqb_iff id j)
]

create-kept :
    (id : Text) (g h : Generation) (d : Generations)
    → get id d ≡ some g
    → get id (create_pending h d).1 ≡ some g
unfolding create_pending
create-kept id g h d e = elim (Option-cases (get h.id d)) [
  | inl none_there ↦ ground (arith, e, none_there, get-insert id h.id h d, text_eqb_iff id h.id)
  | inr (k, there) ↦ rw there e
]

call-terminal :
    (id : Text) (c : StoreCall) (d : Generations) (g : Generation)
    → get id d ≡ some g
    → is_terminal g.status ≡ true
    → get id (run_call c d) ≡ some g
unfolding run_call
call-terminal id (create h) d g e t = create-kept id g h d e
call-terminal id (finish_with j f now) d g e t = finish-terminal id j f now d g e t
call-terminal id (steal j now) d g e t = steal-terminal id j now d g e t

-- A job that has succeeded or has been refunded stays exactly as it is along any sequence of calls
-- of the store, with any arguments.
pub terminal_absorbs :
    (id : Text) (cs : List StoreCall) (d : Generations) (g : Generation)
    → get id d ≡ some g
    → is_terminal g.status ≡ true
    → get id (run_calls cs d) ≡ some g
unfolding run_calls
terminal_absorbs id [] d g e t = e
terminal_absorbs id (c ∷ cs) d g e t =
    terminal_absorbs id cs (run_call c d) g (call-terminal id c d g e t) t
