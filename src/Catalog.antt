-- ===== src/Catalog.antt =====
-- app/catalog: the templates that come with the app, free or for shards, and how many users have
-- each. models.py, the in-memory store of store.py and the service of service.py.
pub mod Laws
pub mod Paid
pub mod Tests
use ggumirror_be.Base.{
  ℕ, zero, suc, ◌+◌, Bool, true, false, not, ◌&&◌, ◌||◌, Option, none, some, List, [], ◌∷◌, ◌++◌,
  map, leb, if◌then◌else◌,
}
use ggumirror_be.Base.Int.{ℤ, pos}
use ggumirror_be.Base.Text.{Text, codes, text_eq, char_count, ◌==◌}
use ggumirror_be.Base.Dict.{Dict, get, insert, contains, values}
use ggumirror_be.Base.Exec.{Result, ok, err, unknown_template, purchase_required}
use ggumirror_be.Canonical.{decimal, length}
use ggumirror_be.Shards.Models.{catalog_template_purchase, ShardMutationResult}
use ggumirror_be.Shards.Store.{ShardStore}
use ggumirror_be.Shards.Scoped.{member}
use ggumirror_be.Shards.Service.{debit}

abbrev entry_artwork_ids : List Text
entry_artwork_ids =
    codes "art-pink-ribbon"
    ∷ codes "art-ink-heart"
    ∷ codes "art-cream-note"
    ∷ codes "art-lavender-star"
    ∷ codes "art-sky-cloud"
    ∷ codes "art-mint-flower"
    ∷ codes "art-gray-check"
    ∷ codes "art-red-point"
    ∷ []

abbrev artwork_template_ids : List Text
artwork_template_ids =
    codes "art-angel-heart"
    ∷ codes "art-birthday"
    ∷ codes "art-cafe-note"
    ∷ codes "art-checklist"
    ∷ codes "art-cherry-love"
    ∷ codes "art-cream-note"
    ∷ codes "art-cyber-love"
    ∷ codes "art-flash-girl"
    ∷ codes "art-gray-check"
    ∷ codes "art-ink-heart"
    ∷ codes "art-lavender-star"
    ∷ codes "art-love-letter"
    ∷ codes "art-lovely-bow"
    ∷ codes "art-mint-flower"
    ∷ codes "art-my-diary"
    ∷ codes "art-pink-ribbon"
    ∷ codes "art-red-point"
    ∷ codes "art-retro-pop"
    ∷ codes "art-scrapbook"
    ∷ codes "art-sky-cloud"
    ∷ codes "art-spring-bloom"
    ∷ codes "art-summer-trip"
    ∷ codes "art-winter-letter"
    ∷ codes "art-y2k-star"
    ∷ []

abbrev basic_template_ids : List Text
basic_template_ids =
    codes "basic-white"
    ∷ codes "basic-black"
    ∷ codes "basic-cream"
    ∷ codes "basic-softPink"
    ∷ codes "basic-lavender"
    ∷ codes "basic-sky"
    ∷ codes "basic-mint"
    ∷ codes "basic-gray"
    ∷ []

-- `CATALOG_TEMPLATE_PRICES`
unfoldable pub template_price : Text → Result ℕ
template_price t =
    if member t entry_artwork_ids
    then ok 1
    else if member t artwork_template_ids
    then ok 3
    else if member t basic_template_ids
    then ok 0
    else err unknown_template

-- `is_known`
unfoldable pub is_known : Text → Bool
is_known t = member t artwork_template_ids || member t basic_template_ids

abbrev is_zero : Result ℕ → Bool
is_zero (ok zero) = true
is_zero _ = false

-- `is_free`, of a template that is known
unfoldable pub is_free : Text → Bool
is_free t = is_zero (template_price t)

-- `f"{len(user_id)}:{user_id}|{len(template_id)}:{template_id}"`, lengths in characters
unfoldable pub acquisition_id : (Text → Text) → Text → Text → Text
acquisition_id sha256 u t = sha256 (
    decimal (char_count u)
    ++ codes ":"
    ++ u
    ++ codes "|"
    ++ decimal (char_count t)
    ++ codes ":"
    ++ t)

pub record TemplateAcquisition : Type 0 where
  pub user_id : Text
  pub template_id : Text
  pub created_at : ℕ

pub record TemplateStat : Type 0 where
  pub template_id : Text
  pub download_count : ℕ

pub record AcquisitionResult : Type 0 where
  pub template_id : Text
  pub first_acquisition : Bool
  pub download_count : ℕ

-- `InMemoryCatalogStore`, with the ledger that a purchase debits.
pub record CatalogStore : Type 0 where
  pub acquisitions : Dict Text TemplateAcquisition
  pub counts : Dict Text ℕ
  pub shards : ShardStore

abbrev count_or : Option ℕ → ℕ
count_or none = 0
count_or (some n) = n

unfoldable pub count_of : CatalogStore → Text → ℕ
count_of m t = count_or (get t m.counts)

-- `stats` and `acquired_template_ids` of the store
unfoldable pub stats : CatalogStore → List Text → List TemplateStat
stats m ts = map (λ t. record { template_id = t; download_count = count_of m t }) ts

unfoldable pub templates_of : Text → List TemplateAcquisition → List Text
templates_of u [] = []
templates_of u (a ∷ xs) =
    let rest = templates_of u xs in if a.user_id == u then a.template_id ∷ rest else rest

unfoldable pub acquired_template_ids : CatalogStore → Text → List Text
acquired_template_ids m u = templates_of u (values m.acquisitions)

-- The record and the count, written together.
unfoldable pub add_acquisition : Text → Text → Text → ℕ → CatalogStore → CatalogStore
add_acquisition key u t now m = record m {
  acquisitions =
      insert key (record { user_id = u; template_id = t; created_at = now }) m.acquisitions;
  counts = insert t (count_of m t + 1) m.counts;
}

abbrev pub had : CatalogStore → Text → AcquisitionResult
had m t = record { template_id = t; first_acquisition = false; download_count = count_of m t }

abbrev pub got : CatalogStore → Text → AcquisitionResult
got m t = record { template_id = t; first_acquisition = true; download_count = count_of m t + 1 }

-- The loop that `stats` and `reconcile` share: known ids, each once, 64 at most.
unfoldable pub wanted_ids : List Text → List Text → List Text
wanted_ids [] wanted = wanted
wanted_ids (t ∷ ts) wanted =
    let skip = member t wanted || not (is_known t) in
    let next = if skip then wanted else wanted ++ t ∷ [] in
    let rest = wanted_ids ts next in if not skip && leb 64 (length next) then next else rest

-- `CatalogService.stats`
unfoldable pub template_stats : CatalogStore → List Text → List TemplateStat
template_stats m ts = stats m (wanted_ids ts [])

module _ (sha256 : Text → Text) where
  -- `acquire` of the store
  unfoldable pub record_acquisition :
      Text → Text → ℕ → CatalogStore → AcquisitionResult × CatalogStore
  record_acquisition u t now m =
      let key = acquisition_id sha256 u t in
      if contains key m.acquisitions then (had m t, m) else (got m t, add_acquisition key u t now m)

  abbrev pub charged :
      Text
      → Text
      → ℕ
      → CatalogStore
      → Result ShardMutationResult × ShardStore
      → Result AcquisitionResult × CatalogStore
  charged u t now m (err e, s) = (err e, record m { shards = s })
  charged u t now m (ok _, s) =
      (ok (got m t), add_acquisition (acquisition_id sha256 u t) u t now (record m { shards = s }))

  -- `purchase` of the store
  unfoldable pub purchase_for :
      Text → Text → ℕ → Text → ℕ → CatalogStore → Result AcquisitionResult × CatalogStore
  purchase_for u t price fresh now m =
      let key = acquisition_id sha256 u t in
      if contains key m.acquisitions
      then (ok (had m t), m)
      else if leb 1 price
      then charged u t now m
          (debit sha256 u (pos price) catalog_template_purchase (some key) fresh now m.shards)
      else (ok (got m t), add_acquisition key u t now m)

  abbrev lift : AcquisitionResult × CatalogStore → Result AcquisitionResult × CatalogStore
  lift (r, m) = (ok r, m)

  -- `CatalogService.acquire`: what has a price is not made for free.
  unfoldable pub acquire_template :
      Text → Text → ℕ → CatalogStore → Result AcquisitionResult × CatalogStore
  acquire_template u t now m =
      if is_known t
      then (if is_free t || member t (acquired_template_ids m u)
          then lift (record_acquisition u t now m)
          else (err purchase_required, m))
      else (err unknown_template, m)

  abbrev pub priced_purchase :
      Text → Text → Text → ℕ → CatalogStore → Result ℕ → Result AcquisitionResult × CatalogStore
  priced_purchase u t fresh now m (err e) = (err e, m)
  priced_purchase u t fresh now m (ok price) = purchase_for u t price fresh now m

  -- `CatalogService.purchase`
  unfoldable pub purchase_template :
      Text → Text → Text → ℕ → CatalogStore → Result AcquisitionResult × CatalogStore
  purchase_template u t fresh now m =
      if is_known t
      then priced_purchase u t fresh now m (template_price t)
      else (err unknown_template, m)

  abbrev pub acquire_if :
      Bool → Text → Text → ℕ → CatalogStore → List AcquisitionResult × CatalogStore
  acquire_if true u t now m = let (r, m') = record_acquisition u t now m in (r ∷ [], m')
  acquire_if false u t now m = ([], m)

  -- The comprehension of `reconcile`, over what was owned when it began.
  unfoldable pub reconcile_each :
      Text → List Text → List Text → ℕ → CatalogStore → List AcquisitionResult × CatalogStore
  reconcile_each u owned [] now m = ([], m)
  reconcile_each u owned (t ∷ ts) now m =
      let (r, m') = acquire_if (is_free t || member t owned) u t now m in
      let (rs, m'') = reconcile_each u owned ts now m' in (r ++ rs, m'')

  unfoldable pub reconcile :
      Text → List Text → ℕ → CatalogStore → List AcquisitionResult × CatalogStore
  reconcile u ts now m = reconcile_each u (acquired_template_ids m u) (wanted_ids ts []) now m
