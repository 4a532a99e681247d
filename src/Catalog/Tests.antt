-- ===== src/Catalog/Tests.antt =====
-- The theorems on the catalog at a concrete store.
use ggumirror_be.Base.{refl, List, [], ◌∷◌}
use ggumirror_be.Base.Text.{codes, text_eq}
use ggumirror_be.Base.Dict.{get, values}
use ggumirror_be.Catalog.{CatalogStore, count_of}
use ggumirror_be.Catalog.Laws.{
  IsCounted, record_count, Call, acquires, purchases, reconciles, serve_all, serve_all-IsCounted,
}
use ggumirror_be.Shards.Tests.{plain, alice, granted, granted-IsSound}

abbrev shelf : CatalogStore
shelf = record { acquisitions = []; counts = []; shards = granted }

shelf-IsCounted : IsCounted shelf
unfolding count_of record_count values get
shelf-IsCounted = record { counted = λ t. refl; sound = granted-IsSound }

abbrev calls : List Call
calls =
    acquires alice (codes "basic-white") 12
    ∷ purchases alice (codes "art-birthday") (codes "e2") 13
    ∷ reconciles alice (codes "art-birthday" ∷ codes "basic-sky" ∷ []) 14
    ∷ []

serve_all-IsCounted_example : IsCounted (serve_all plain calls shelf)
serve_all-IsCounted_example = serve_all-IsCounted plain calls shelf shelf-IsCounted
