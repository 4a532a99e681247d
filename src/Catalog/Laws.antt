-- ===== src/Catalog/Laws.antt =====
-- The public count of a template beside the records (app/catalog), and what a purchase keeps.
use ggumirror_be.Base.{
  ℕ, ◌+◌, ◌≡◌, ap, ◌∙◌, Bool, true, false, ◌||◌, none, some, inl, inr, List, [], ◌∷◌, ◌++◌, arith,
  leb, if◌then◌else◌, if-all, Bool-cases, Option-cases,
}
use ggumirror_be.Base.Int.{ℤ, pos}
use ggumirror_be.Base.Text.{Text, text_eq, text_eqb_iff, ◌==◌}
use ggumirror_be.Base.Dict.{Dict, get, contains, values, get-insert, values-insert}
use ggumirror_be.Base.Exec.{Result, ok, err, Result-cases}
use ggumirror_be.Catalog.{
  TemplateAcquisition, AcquisitionResult, CatalogStore, count_of, acquisition_id, add_acquisition,
  record_acquisition, purchase_for, acquire_template, purchase_template, template_price, is_known,
  is_free, acquired_template_ids, reconcile, reconcile_each, wanted_ids, acquire_if, charged,
}
use ggumirror_be.Shards.Models.{catalog_template_purchase, ShardMutationResult}
use ggumirror_be.Shards.Store.{ShardStore}
use ggumirror_be.Shards.Scoped.{member}
use ggumirror_be.Shards.Service.{debit, apply_change, checked}
use ggumirror_be.Shards.ServiceLaws.{mutation-IsSound}
use ggumirror_be.Shards.Ledger.{IsSound}
use ggumirror_be.Shards.ApplyLaws.{apply-IsSound}

-- How many records name a template.
unfoldable pub record_count : Text → List TemplateAcquisition → ℕ
record_count t [] = 0
record_count t (a ∷ xs) = (if t == a.template_id then 1 else 0) + record_count t xs

-- The counts are those of the records, and the ledger's books balance.
pub record IsCounted (m : CatalogStore) : Type 0 where
  pub counted : (t : Text) → count_of m t ≡ record_count t (values m.acquisitions)
  pub sound : IsSound m.shards

record_count-append :
    (t : Text) (xs : List TemplateAcquisition) (a : TemplateAcquisition)
    → record_count t (xs ++ a ∷ []) ≡ record_count t xs + (if t == a.template_id then 1 else 0)
unfolding record_count
record_count-append t [] a = omega arith
record_count-append t (x ∷ xs) a = ground (arith, record_count-append t xs a)

missing : (k : Text) (d : Dict Text TemplateAcquisition) → contains k d ≡ false → get k d ≡ none
missing k d = elim (Option-cases (get k d)) [
  | inl e ↦ λ h. e
  | inr (a, e) ↦ rw (e, contains) (λ h. ground arith)
]

add_acquisition-IsCounted :
    (key u t : Text) (now : ℕ) (m : CatalogStore)
    → contains key m.acquisitions ≡ false
    → IsCounted m
    → IsCounted (add_acquisition key u t now m)
unfolding add_acquisition count_of
add_acquisition-IsCounted key u t now m new h = record {
  counted = λ j.
      let a : TemplateAcquisition = record { user_id = u; template_id = t; created_at = now } in
      let added =
        ap (record_count j) (values-insert key a m.acquisitions (missing key m.acquisitions new))
        ∙ record_count-append j (values m.acquisitions) a in
      ground
        (arith, get-insert j t (count_of m t + 1) m.counts, h.counted j, text_eqb_iff j t, added);
  sound = h.sound;
}

module _ (sha256 : Text → Text) where
  debit-IsSound :
      (u : Text) (amount : ℤ) (key fresh : Text) (now : ℕ) (s : ShardStore)
      → IsSound s
      → IsSound (debit sha256 u amount catalog_template_purchase (some key) fresh now s).1
  unfolding debit apply_change
  debit-IsSound u amount key fresh now s h = elim (Result-cases (checked amount)) [
    | inr (x, e) ↦ rw e h
    | inl (a, e) ↦ rw e (mutation-IsSound _ (apply-IsSound _ fresh now s h))
  ]

  record_acquisition-IsCounted :
      (u t : Text) (now : ℕ) (m : CatalogStore)
      → IsCounted m
      → IsCounted (record_acquisition sha256 u t now m).1
  unfolding record_acquisition
  record_acquisition-IsCounted u t now m h =
      elim (Bool-cases (contains (acquisition_id sha256 u t) m.acquisitions)) [
        | inl have ↦ rw have h
        | inr new ↦ rw new (add_acquisition-IsCounted (acquisition_id sha256 u t) u t now m new h)
      ]

  acquire_if-IsCounted :
      (b : Bool) (u t : Text) (now : ℕ) (m : CatalogStore)
      → IsCounted m
      → IsCounted (acquire_if sha256 b u t now m).1
  acquire_if-IsCounted true u t now m h = record_acquisition-IsCounted u t now m h
  acquire_if-IsCounted false u t now m h = h

  reconcile_each-IsCounted :
      (u : Text) (owned ts : List Text) (now : ℕ) (m : CatalogStore)
      → IsCounted m
      → IsCounted (reconcile_each sha256 u owned ts now m).1
  unfolding reconcile_each
  reconcile_each-IsCounted u owned [] now m h = h
  reconcile_each-IsCounted u owned (t ∷ ts) now m h =
      reconcile_each-IsCounted u owned ts now _
        (acquire_if-IsCounted (is_free t || member t owned) u t now m h)

  charged-IsCounted :
      (u t : Text) (now : ℕ) (m : CatalogStore) (out : Result ShardMutationResult × ShardStore)
      → contains (acquisition_id sha256 u t) m.acquisitions ≡ false
      → IsSound out.1
      → IsCounted m
      → IsCounted (charged sha256 u t now m out).1
  unfolding count_of
  charged-IsCounted u t now m (err e, s) new sound h = record { counted = h.counted; sound = sound }
  charged-IsCounted u t now m (ok r, s) new sound h =
      add_acquisition-IsCounted (acquisition_id sha256 u t) u t now (record m { shards = s }) new
        (record { counted = h.counted; sound = sound })

  purchase_for-IsCounted :
      (u t : Text) (price : ℕ) (fresh : Text) (now : ℕ) (m : CatalogStore)
      → IsCounted m
      → IsCounted (purchase_for sha256 u t price fresh now m).1
  unfolding purchase_for
  purchase_for-IsCounted u t price fresh now m h =
      let key = acquisition_id sha256 u t in
      elim (Bool-cases (contains key m.acquisitions)) [
        | inl have ↦ rw have h
        | inr new ↦ rw new (
            if-all (λ (out : Result AcquisitionResult × CatalogStore). IsCounted out.1)
              (leb 1 price) _ _
              (charged-IsCounted u t now m _ new
                (debit-IsSound u (pos price) key fresh now m.shards h.sound) h)
              (add_acquisition-IsCounted key u t now m new h))
      ]

-- The calls of the service that write.
pub data Call : Type 0 where
  acquires : (user template : Text) (now : ℕ) → Call
  purchases : (user template fresh : Text) (now : ℕ) → Call
  reconciles : (user : Text) (templates : List Text) (now : ℕ) → Call

unfoldable pub serve : (Text → Text) → Call → CatalogStore → CatalogStore
serve sha256 (acquires u t now) m = (acquire_template sha256 u t now m).1
serve sha256 (purchases u t fresh now) m = (purchase_template sha256 u t fresh now m).1
serve sha256 (reconciles u ts now) m = (reconcile sha256 u ts now m).1

unfoldable pub serve_all : (Text → Text) → List Call → CatalogStore → CatalogStore
serve_all sha256 [] m = m
serve_all sha256 (c ∷ cs) m = serve_all sha256 cs (serve sha256 c m)

serve-IsCounted :
    (sha256 : Text → Text) (c : Call) (m : CatalogStore)
    → IsCounted m
    → IsCounted (serve sha256 c m)
unfolding serve acquire_template purchase_template reconcile
serve-IsCounted sha256 (acquires u t now) m h =
    let P = λ (out : Result AcquisitionResult × CatalogStore). IsCounted out.1 in
    if-all P (is_known t) _ _
      (if-all P (is_free t || member t (acquired_template_ids m u)) _ _
        (record_acquisition-IsCounted sha256 u t now m h) h)
      h
serve-IsCounted sha256 (purchases u t fresh now) m h =
    if-all (λ (out : Result AcquisitionResult × CatalogStore). IsCounted out.1) (is_known t) _ _
      (elim (Result-cases (template_price t)) [
        | inl (price, e) ↦ rw e (purchase_for-IsCounted sha256 u t price fresh now m h)
        | inr (x, e) ↦ rw e h
      ])
      h
serve-IsCounted sha256 (reconciles u ts now) m h =
    reconcile_each-IsCounted sha256 u (acquired_template_ids m u) (wanted_ids ts []) now m h

-- Where it held before, it holds after any calls of the service, in any order and whether they
-- succeed or raise: the public count of every template is the number of its records, and the
-- ledger's books balance.
pub serve_all-IsCounted :
    (sha256 : Text → Text) (cs : List Call) (m : CatalogStore)
    → IsCounted m
    → IsCounted (serve_all sha256 cs m)
unfolding serve_all
serve_all-IsCounted sha256 [] m h = h
serve_all-IsCounted sha256 (c ∷ cs) m h =
    serve_all-IsCounted sha256 cs (serve sha256 c m) (serve-IsCounted sha256 c m h)
