-- ===== src/Transaction/Tests.antt =====
-- A commit of two writes on a number, the second of which raises.
use ggumirror_be.Base.{ℕ, ◌+◌, ◌-◌, refl, [], ◌∷◌}
use ggumirror_be.Base.Exec.{key_error}
use ggumirror_be.Transaction.{Write, done, failed, InMemoryTransaction, commit}
use ggumirror_be.Transaction.Atomic.{Settles, sequence, commit-Settles}

abbrev adds : Write ℕ
adds n = done (n + 1) (λ k. k - 1)

abbrev raises : Write ℕ
raises n = failed key_error

abbrev attempt : InMemoryTransaction ℕ
attempt = record { writes = adds ∷ raises ∷ []; commits = 0 }

commit-Settles_example :
    Settles (sequence attempt.writes 4) 4 ((commit attempt 4).0, (commit attempt 4).2)
commit-Settles_example = commit-Settles attempt 4 (refl, tt)
