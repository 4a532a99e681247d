-- ===== src/Shards/ServiceLaws.antt =====
-- The amounts that a caller's transaction may move (app/shards/service.py, `_moved`).
use ggumirror_be.Base.{zero, suc, ◌≡◌, arith}
use ggumirror_be.Base.Int.{ℤ, pos, negsuc, neg, ◌≤ℤ◌}
use ggumirror_be.Base.Exec.{Result, ok, err}
use ggumirror_be.Shards.Models.{max_delta}
use ggumirror_be.Shards.Service.{moved, mutation}
use ggumirror_be.Shards.Store.{ShardStore, Applied}
use ggumirror_be.Shards.Ledger.{IsSound}

pub moved_pos : (a : ℤ) → pos 1 ≤ℤ a → a ≤ℤ pos max_delta → moved a ≡ ok a
unfolding moved
moved_pos (pos zero) p q = ground arith
moved_pos (pos (suc n)) p q = ground arith
moved_pos (negsuc n) p q = ground arith

pub moved_neg : (a : ℤ) → pos 1 ≤ℤ a → a ≤ℤ pos max_delta → moved (neg a) ≡ ok (neg a)
unfolding moved neg
moved_neg (pos zero) p q = ground arith
moved_neg (pos (suc n)) p q = ground arith
moved_neg (negsuc n) p q = ground arith

pub mutation-IsSound :
    (out : Result Applied × ShardStore) → IsSound out.1 → IsSound (mutation out).1
mutation-IsSound (ok (w, e, applied), s) h = h
mutation-IsSound (err e, s) h = h
