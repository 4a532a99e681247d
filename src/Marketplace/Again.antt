-- ===== src/Marketplace/Again.antt =====
-- A second purchase by the owner (app/marketplace/store.py, `acquire`), after any calls of the store
-- that come between.
use ggumirror_be.Base.{ℕ, ◌≡◌, refl, true, false, some, none, inl, inr}
use ggumirror_be.Base.Text.{Text}
use ggumirror_be.Base.Exec.{Result, ok, err, Result-cases}
use ggumirror_be.Marketplace.Models.{Python, Listing, Ownership, ownership_id}
use ggumirror_be.Marketplace.Market.{Market, get_published, ownership}
use ggumirror_be.Marketplace.Acquire.{PurchaseResult, acquire}
use ggumirror_be.Marketplace.AcquireLaws.{CanBuy, purchase, purchase_made, owned_after}
use ggumirror_be.Marketplace.Owned.{
  Owned, create_snapshot-Owned, create_draft-Owned, unpublish-Owned, delete-Owned, like-Owned,
  unlike-Owned, restore-Owned,
}
use ggumirror_be.Marketplace.OwnedSales.{publish-Owned, acquire-Owned, takedown-Owned}
use ggumirror_be.Marketplace.Reach.{
  Step, snapshots, drafts, publishes, unpublishes, deletes, acquires, likes, unlikes, takes_down,
  restores,
}
use ggumirror_be.Shards.Store.{wallet}

-- The states that any number of calls that write reach from one state.
pub data Steps (py : Python) (m : Market) : Market → Type 0 where
  unmoved : Steps py m m
  moved_on : {n n' : Market} → Steps py m n → Step py n n' → Steps py m n'

module _ (py : Python) (k : Text) (own : Ownership) where
  Step-Owned : (m m' : Market) → Owned k own m → Step py m m' → Owned k own m'
  Step-Owned m _ h (snapshots x) = create_snapshot-Owned py m k own h x
  Step-Owned m _ h (drafts fresh seller r now) = create_draft-Owned py m k own h fresh seller r now
  Step-Owned m _ h (publishes id seller now) = publish-Owned py m k own h id seller now
  Step-Owned m _ h (unpublishes id seller now) = unpublish-Owned py m k own h id seller now
  Step-Owned m _ h (deletes id seller now) = delete-Owned py m k own h id seller now
  Step-Owned m _ h (acquires id buyer now) = acquire-Owned py m k own h id buyer now
  Step-Owned m _ h (likes id user now) = like-Owned py m k own h id user now
  Step-Owned m _ h (unlikes id user) = unlike-Owned py m k own h id user
  Step-Owned m _ h (takes_down fresh id actor reason note now) =
      takedown-Owned py m k own h fresh id actor reason note now
  Step-Owned m _ h (restores fresh id actor now) = restore-Owned py m k own h fresh id actor now

  Steps-Owned : (m n : Market) → Owned k own m → Steps py m n → Owned k own n
  Steps-Owned m _ h unmoved = h
  Steps-Owned m _ h (moved_on {n} {n'} before step) =
      Step-Owned n n' (Steps-Owned m n h before) step

-- What the owner is told: what was bought at the price that was paid, the balance of the day and the
-- listing's counter; or that the listing is not on sale.
abbrev pub told_again : Market → Text → ℕ → Ownership → Result Listing → Result PurchaseResult
told_again m buyer now o (err e) = err e
told_again m buyer now o (ok l) = ok (record {
  ownership = o;
  purchased = false;
  already_owned = true;
  price_paid = o.price_paid;
  balance = (wallet m.shards now buyer).balance;
  download_count = l.download_count;
  sale_event = none;
})

owner_told :
    (py : Python) (id buyer : Text) (now : ℕ) (m : Market) (o : Ownership)
    → ownership py m id buyer ≡ some o
    → acquire py id buyer now m ≡ (told_again m buyer now o (get_published m id), m)
unfolding acquire ownership
owner_told py id buyer now m o have = elim (Result-cases (get_published m id)) [
  | inl (l, listed) ↦ rw (listed, have) refl
  | inr (e, hidden) ↦ rw hidden refl
]

-- After a purchase that met `CanBuy`, and then any number of calls that write to the market, by
-- anyone and whether they succeed or raise, a second purchase by the same buyer at any time changes
-- nothing: while the listing is public it succeeds, tells the ownership of the first purchase and the
-- price paid then, and is no new purchase; once the listing is no longer public it raises what the
-- read of the listing raises.
pub acquire_again :
    (py : Python) (id buyer : Text) (now later : ℕ) (m n : Market) (l : Listing)
    → CanBuy py id buyer now m l
    → Steps py (acquire py id buyer now m).1 n
    → acquire py id buyer later n
      ≡ (told_again n buyer later (purchase py id buyer now m l).ownership (get_published n id), n)
unfolding ownership
acquire_again py id buyer now later m n l h steps =
    let o = (purchase py id buyer now m l).ownership in
    let first : Owned (ownership_id py buyer id) o (acquire py id buyer now m).1 =
      rw (purchase_made py id buyer now m l h) (owned_after py id buyer now m l h) in
    owner_told py id buyer later n o
      (Steps-Owned py (ownership_id py buyer id) o (acquire py id buyer now m).1 n first steps)
