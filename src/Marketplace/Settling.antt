-- ===== src/Marketplace/Settling.antt =====
-- The commit of a marketplace transaction (app/marketplace/store.py), with the ledger's writes and its
-- own.
use ggumirror_be.Base.{◌≡◌, refl, List, []}
use ggumirror_be.Base.Text.{text_eq}
use ggumirror_be.Base.Exec.{Result, ok}
use ggumirror_be.Marketplace.Market.{Market, market_transaction, put_shards}
use ggumirror_be.Shards.Store.{ShardStore}
use ggumirror_be.Transaction.{Write, commit, run_writes}
use ggumirror_be.Transaction.Total.{final_state, run_writes-final, AllTotal, run_writes-within}

-- A commit does to the market what its own writes do to it over some state of the ledger.
pub market_commit-all :
    (P : Result (Unit {0}) × Market → Type 0) (shard_writes : List (Write ShardStore))
    (writes : List (Write Market)) (m : Market)
    → AllTotal shard_writes
    → ((s : ShardStore) (undos : List (Market → Market))
        → P (run_writes writes undos (put_shards s m)))
    → P (
      (commit (market_transaction shard_writes writes) m).0,
      (commit (market_transaction shard_writes writes) m).2,
    )
unfolding commit market_transaction put_shards
market_commit-all P shard_writes writes m total ends =
    run_writes-within P (λ (w : Market). w.shards) put_shards (λ s t w. refl) shard_writes writes
      total m ends m.shards []

-- A commit whose own writes succeed on every state of the ledger succeeds.
pub market_commit :
    (shard_writes : List (Write ShardStore)) (writes : List (Write Market)) (m : Market)
    → AllTotal shard_writes
    → ((s : ShardStore) (undos : List (Market → Market))
        → (run_writes writes undos (put_shards s m)).0 ≡ ok tt)
    → (commit (market_transaction shard_writes writes) m).0 ≡ ok tt
market_commit shard_writes writes m total ends =
    market_commit-all (λ out. out.0 ≡ ok tt) shard_writes writes m total ends

-- A commit of ledger writes that never raise, and then of the market's own.
pub market_commit-final :
    (P : Result (Unit {0}) × Market → Type 0) (shard_writes : List (Write ShardStore))
    (writes : List (Write Market)) (m : Market)
    → AllTotal shard_writes
    → ((undos : List (Market → Market))
        → P (run_writes writes undos (put_shards (final_state shard_writes m.shards) m)))
    → P (
      (commit (market_transaction shard_writes writes) m).0,
      (commit (market_transaction shard_writes writes) m).2,
    )
unfolding commit market_transaction put_shards
market_commit-final P shard_writes writes m total ends =
    run_writes-final P (λ (w : Market). w.shards) put_shards (λ s t w. refl) (λ s w. refl)
      shard_writes writes total m m.shards ends []
