-- ===== src/Catalog/Paid.antt =====
-- Templates with a price (app/catalog/service.py and store.py).
use ggumirror_be.Base.{
  ℕ, ◌+◌, ◌≡◌, refl, ◌∙◌, true, false, ◌||◌, some, inl, inr, List, [], ◌∷◌, arith, leb, if-all,
  Bool-cases,
}
use ggumirror_be.Base.Int.{pos}
use ggumirror_be.Base.Text.{Text, text_eq, text_eqb_iff, ◌==◌}
use ggumirror_be.Base.Dict.{contains, get-insert, get-insert_self}
use ggumirror_be.Base.Exec.{Result, ok, err, is_ok, Result-cases}
use ggumirror_be.Catalog.{
  AcquisitionResult, CatalogStore, count_of, acquisition_id, add_acquisition, had,
  record_acquisition, purchase_for, acquire_template, purchase_template, template_price, is_known,
  is_free, acquired_template_ids, reconcile, reconcile_each, wanted_ids, acquire_if, charged,
}
use ggumirror_be.Shards.Models.{catalog_template_purchase, ShardMutationResult}
use ggumirror_be.Shards.Store.{ShardStore}
use ggumirror_be.Shards.Scoped.{member}
use ggumirror_be.Shards.Service.{debit}

module _ (sha256 : Text → Text) (t : Text) where
  record_acquisition-others :
      (u x : Text) (now : ℕ) (m : CatalogStore)
      → (t == x) ≡ false
      → count_of (record_acquisition sha256 u x now m).1 t ≡ count_of m t
  unfolding record_acquisition add_acquisition count_of
  record_acquisition-others u x now m other =
      if-all (λ (out : AcquisitionResult × CatalogStore). count_of out.1 t ≡ count_of m t)
        (contains (acquisition_id sha256 u x) m.acquisitions) _ _ refl
        (ground (arith, get-insert t x (count_of m x + 1) m.counts))

  acquire_if-others :
      (owned : List Text) (u x : Text) (now : ℕ) (m : CatalogStore)
      → is_free t ≡ false
      → member t owned ≡ false
      → count_of (acquire_if sha256 (is_free x || member x owned) u x now m).1 t ≡ count_of m t
  acquire_if-others owned u x now m priced unowned = elim (Bool-cases (t == x)) [
    | inl same ↦
        let skipped : (is_free x || member x owned) ≡ false =
          rw (← (text_eqb_iff t x).0 same) (rw (priced, unowned) refl) in
        rw skipped refl
    | inr other ↦ elim (Bool-cases (is_free x || member x owned)) [
      | inl kept ↦ rw kept (record_acquisition-others u x now m other)
      | inr skipped ↦ rw skipped refl
    ]
  ]

  reconcile_each-others :
      (owned : List Text) (u : Text) (ts : List Text) (now : ℕ) (m : CatalogStore)
      → is_free t ≡ false
      → member t owned ≡ false
      → count_of (reconcile_each sha256 u owned ts now m).1 t ≡ count_of m t
  unfolding reconcile_each
  reconcile_each-others owned u [] now m priced unowned = refl
  reconcile_each-others owned u (x ∷ ts) now m priced unowned =
      reconcile_each-others owned u ts now
        (acquire_if sha256 (is_free x || member x owned) u x now m).1 priced unowned
      ∙ acquire_if-others owned u x now m priced unowned

-- A template with a price that a user does not have is had by neither free way: the acquisition and
-- a reconciliation of any list of ids leave its count as it was.
pub free_ways_unpaid :
    (sha256 : Text → Text) (u t : Text) (ts : List Text) (now : ℕ) (m : CatalogStore)
    → is_free t ≡ false
    → member t (acquired_template_ids m u) ≡ false
    → (count_of (acquire_template sha256 u t now m).1 t ≡ count_of m t)
      × (count_of (reconcile sha256 u ts now m).1 t ≡ count_of m t)
unfolding acquire_template reconcile
free_ways_unpaid sha256 u t ts now m priced unowned = (
  if-all (λ (out : Result AcquisitionResult × CatalogStore). count_of out.1 t ≡ count_of m t)
      (is_known t) _ _ (rw (priced, unowned) refl) refl,
  reconcile_each-others sha256 t (acquired_template_ids m u) u (wanted_ids ts []) now m priced
      unowned,
)

charged-recorded :
    (sha256 : Text → Text) (u t : Text) (now : ℕ) (m : CatalogStore)
    (out : Result ShardMutationResult × ShardStore)
    → is_ok (charged sha256 u t now m out).0 ≡ true
    → contains (acquisition_id sha256 u t) (charged sha256 u t now m out).1.acquisitions ≡ true
unfolding add_acquisition
charged-recorded sha256 u t now m (err e, s) h = ground arith
charged-recorded sha256 u t now m (ok r, s) h =
    rw (get-insert_self (acquisition_id sha256 u t) _ m.acquisitions, contains) refl

recorded :
    (sha256 : Text → Text) (u t : Text) (price : ℕ) (fresh : Text) (now : ℕ) (m : CatalogStore)
    → is_ok (purchase_for sha256 u t price fresh now m).0 ≡ true
    → contains
        (acquisition_id sha256 u t)
        (purchase_for sha256 u t price fresh now m).1.acquisitions
      ≡ true
unfolding purchase_for add_acquisition
recorded sha256 u t price fresh now m =
    let key = acquisition_id sha256 u t in
    let P = λ (out : Result AcquisitionResult × CatalogStore).
      is_ok out.0 ≡ true → contains key out.1.acquisitions ≡ true in
    elim (Bool-cases (contains key m.acquisitions)) [
      | inl have ↦ rw have (λ _. have)
      | inr new ↦ rw new (
          if-all P (leb 1 price) _ _
            (charged-recorded sha256 u t now m
              (debit sha256 u (pos price) catalog_template_purchase (some key) fresh now m.shards))
            (λ _. rw (get-insert_self key _ m.acquisitions, contains) refl))
    ]

-- Once a purchase has gone through, a second one of the same template by the same user, at any
-- later time, succeeds, is no first acquisition, and takes and changes nothing.
pub purchase_template_twice :
    (sha256 : Text → Text) (u t fresh again : Text) (now later : ℕ) (m : CatalogStore)
    → is_ok (purchase_template sha256 u t fresh now m).0 ≡ true
    → let m' = (purchase_template sha256 u t fresh now m).1 in
      purchase_template sha256 u t again later m' ≡ (ok (had m' t), m')
unfolding purchase_template purchase_for
purchase_template_twice sha256 u t fresh again now later m = elim (Bool-cases (is_known t)) [
  | inr strange ↦ rw strange (λ h. ground arith)
  | inl known ↦ elim (Result-cases (template_price t)) [
    | inr (x, e) ↦ rw (known, e) (λ h. ground arith)
    | inl (price, e) ↦ rw (known, e) (λ h. rw (recorded sha256 u t price fresh now m h) refl)
  ]
]
