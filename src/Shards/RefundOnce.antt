-- ===== src/Shards/RefundOnce.antt =====
-- The same refund again (app/shards/store.py, `refund`).
use ggumirror_be.Base.{ℕ, ◌≡◌, refl, false, Option, none, some, [], ◌∷◌, arith, ap, ◌∙◌}
use ggumirror_be.Base.Int.{ℤ}
use ggumirror_be.Base.Text.{Text, codes, text_eqb, text_eq, pair_eq}
use ggumirror_be.Base.Dict.{get, insert, get-insert}
use ggumirror_be.Base.Exec.{ok}
use ggumirror_be.Shards.Models.{Document, Value, int, RefundPlan, text_of, optional_text}
use ggumirror_be.Shards.Store.{ShardStore, wallet}
use ggumirror_be.Shards.Refund.{
  RefundRequest, refund_purchase, refund_again, refund_document, recovery_id, nonempty, document_at,
}

nonempty-insert :
    (k : Text) (v : Value) (d : Document) → nonempty (some (insert k v d)) ≡ some (insert k v d)
unfolding insert
nonempty-insert k v [] = refl
nonempty-insert k v ((j, w) ∷ d) = ground arith

module _ (document : Document) (plan : RefundPlan) (u : Text) (recovered : ℤ) (id : Option Text)
    (now : ℕ) where
  requested-document :
      get (codes "requestedAmount") (refund_document document plan u recovered id now)
      ≡ some (int plan.requested)
  unfolding refund_document text_eqb
  requested-document = simp get-insert

  recovered-document :
      get (codes "recoveredAmount") (refund_document document plan u recovered id now)
      ≡ some (int recovered)
  unfolding refund_document text_eqb
  recovered-document = simp get-insert

  entry_id-document :
      get (codes "ledgerEntryId") (refund_document document plan u recovered id now)
      ≡ some (optional_text id)
  unfolding refund_document text_eqb
  entry_id-document = simp get-insert

  nonempty-document :
      nonempty (some (refund_document document plan u recovered id now))
      ≡ some (refund_document document plan u recovered id now)
  unfolding refund_document
  nonempty-document = nonempty-insert _ _ _

refund_known :
    (r : RefundRequest) (now : ℕ) (s : ShardStore) (claim existing : Document) (plan : RefundPlan)
    → document_at s r.purchase ≡ some claim
    → r.plan claim ≡ ok plan
    → nonempty (document_at s r.target) ≡ some existing
    → refund_purchase r now s ≡ (ok (refund_again r existing now s), s)
unfolding refund_purchase
refund_known r now s claim existing plan p q t = rw (p, q, t)

text_of-optional_text : (t : Option Text) → text_of (some (optional_text t)) ≡ t
text_of-optional_text none = refl
text_of-optional_text (some t) = refl

-- Once a refund is on record, the same refund again moves nothing and answers the amounts that
-- were recorded first.
pub refund_twice :
    (r : RefundRequest) (now later : ℕ) (s : ShardStore) (claim : Document) (plan : RefundPlan)
    (recovered : ℤ)
    → document_at s r.purchase ≡ some claim
    → r.plan claim ≡ ok plan
    → document_at s r.target
      ≡ some (refund_document r.document plan r.user_id recovered (recovery_id r.key recovered) now)
    → refund_purchase r later s ≡ (
      ok (record {
        wallet = wallet s later r.user_id;
        requested = plan.requested;
        recovered = recovered;
        applied = false;
        ledger_entry_id = recovery_id r.key recovered;
      }),
      s,
    )
unfolding refund_again
refund_twice r now later s claim plan recovered p q t =
    let id = recovery_id r.key recovered in
    let doc = refund_document r.document plan r.user_id recovered id now in
    refund_known r later s claim doc plan p q
      (ap nonempty t ∙ nonempty-document r.document plan r.user_id recovered id now)
    ∙ rw (
      requested-document r.document plan r.user_id recovered id now,
      recovered-document r.document plan r.user_id recovered id now,
      entry_id-document r.document plan r.user_id recovered id now,
      text_of-optional_text id,
    )
