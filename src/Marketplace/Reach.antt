-- ===== src/Marketplace/Reach.antt =====
-- The market as a state machine: each call of app/marketplace/store.py that writes is a step,
-- whoever makes it, with whatever arguments and at whatever time, and whether it succeeds or raises.
use ggumirror_be.Base.{ℕ, ◌≡◌, true, some, [], arith}
use ggumirror_be.Base.Text.{Text, text_eq}
use ggumirror_be.Base.Dict.{get}
use ggumirror_be.Marketplace.Models.{
  Python, Listing, Snapshot, ModerationReason, is_published, listing_title_key,
}
use ggumirror_be.Marketplace.Market.{Market}
use ggumirror_be.Marketplace.Publish.{publish}
use ggumirror_be.Marketplace.Acquire.{acquire}
use ggumirror_be.Marketplace.Lifecycle.{
  DraftRequest, create_draft, create_snapshot, unpublish, delete,
}
use ggumirror_be.Marketplace.Likes.{like, unlike}
use ggumirror_be.Marketplace.Moderation.{takedown, restore}
use ggumirror_be.Marketplace.Titles.{IsTitled, IsTitled-unique}
use ggumirror_be.Marketplace.TitleSteps.{
  create_draft-IsTitled, create_snapshot-IsTitled, unpublish-IsTitled, delete-IsTitled,
}
use ggumirror_be.Marketplace.TitleReach.{
  publish-IsTitled, acquire-IsTitled, like-IsTitled, unlike-IsTitled, takedown-IsTitled,
  restore-IsTitled,
}
use ggumirror_be.Marketplace.Books.{publish-books, acquire-books, takedown-books}
use ggumirror_be.Marketplace.Unmoved.{
  create_snapshot-shards, create_draft-shards, unpublish-shards, delete-shards, like-shards,
  unlike-shards, restore-shards,
}
use ggumirror_be.Shards.Store.{ShardStore}
use ggumirror_be.Shards.Ledger.{IsSound}

abbrev pub empty_market : ShardStore → Market
empty_market s = record {
  listings = [];
  snapshots = [];
  ownership_records = [];
  likes_by_id = [];
  moderation_event_log = [];
  title_claims = [];
  moderation_blocks = [];
  notifications = [];
  shards = s;
}

pub data Step (py : Python) (m : Market) : Market → Type 0 where
  snapshots : (x : Snapshot) → Step py m (create_snapshot x m).1
  drafts :
      (fresh seller : Text) (r : DraftRequest) (now : ℕ)
      → Step py m (create_draft py fresh seller r now m).1
  publishes : (id seller : Text) (now : ℕ) → Step py m (publish py id seller now m).1
  unpublishes : (id seller : Text) (now : ℕ) → Step py m (unpublish py id seller now m).1
  deletes : (id seller : Text) (now : ℕ) → Step py m (delete py id seller now m).1
  acquires : (id buyer : Text) (now : ℕ) → Step py m (acquire py id buyer now m).1
  likes : (id user : Text) (now : ℕ) → Step py m (like py id user now m).1
  unlikes : (id user : Text) → Step py m (unlike py id user m).1
  takes_down :
      (fresh id actor : Text) (reason : ModerationReason) (note : Text) (now : ℕ)
      → Step py m (takedown py fresh id actor reason note now m).1
  restores : (fresh id actor : Text) (now : ℕ) → Step py m (restore py fresh id actor now m).1

-- The states that an empty market reaches.
pub data Reach (py : Python) (s : ShardStore) : Market → Type 0 where
  start : Reach py s (empty_market s)
  later : {m m' : Market} → Reach py s m → Step py m m' → Reach py s m'

Step-IsTitled : (py : Python) (m m' : Market) → IsTitled py m → Step py m m' → IsTitled py m'
Step-IsTitled py m _ h (snapshots x) = create_snapshot-IsTitled py m h x
Step-IsTitled py m _ h (drafts fresh seller r now) = create_draft-IsTitled py m h fresh seller r now
Step-IsTitled py m _ h (publishes id seller now) = publish-IsTitled py m h id seller now
Step-IsTitled py m _ h (unpublishes id seller now) = unpublish-IsTitled py m h id seller now
Step-IsTitled py m _ h (deletes id seller now) = delete-IsTitled py m h id seller now
Step-IsTitled py m _ h (acquires id buyer now) = acquire-IsTitled py m h id buyer now
Step-IsTitled py m _ h (likes id user now) = like-IsTitled py m h id user now
Step-IsTitled py m _ h (unlikes id user) = unlike-IsTitled py m h id user
Step-IsTitled py m _ h (takes_down fresh id actor reason note now) =
    takedown-IsTitled py m h fresh id actor reason note now
Step-IsTitled py m _ h (restores fresh id actor now) = restore-IsTitled py m h fresh id actor now

empty_market-IsTitled : (py : Python) (s : ShardStore) → IsTitled py (empty_market s)
unfolding get
empty_market-IsTitled py s = record {
  named = λ id l g. ground arith;
  holds = λ id l g p. ground arith;
}

pub Reach-IsTitled : (py : Python) (s : ShardStore) (m : Market) → Reach py s m → IsTitled py m
Reach-IsTitled py s _ start = empty_market-IsTitled py s
Reach-IsTitled py s _ (later {m} {m'} before step) =
    Step-IsTitled py m m' (Reach-IsTitled py s m before) step

-- However the calls that write follow one another from an empty market, two published listings
-- never have one title, up to the NFC form, outer blanks and case.
pub published_titles_unique :
    (py : Python) (s : ShardStore) (m : Market) (i j : Text) (k l : Listing)
    → Reach py s m
    → get i m.listings ≡ some k
    → get j m.listings ≡ some l
    → is_published k.status ≡ true
    → is_published l.status ≡ true
    → listing_title_key py k.title ≡ listing_title_key py l.title
    → i ≡ j
published_titles_unique py s m i j k l reach gi gj pk pl same =
    IsTitled-unique py m i j k l (Reach-IsTitled py s m reach) gi gj pk pl same

Step-IsSound : (py : Python) (m m' : Market) → IsSound m.shards → Step py m m' → IsSound m'.shards
Step-IsSound py m _ h (snapshots x) = rw (create_snapshot-shards py m x) h
Step-IsSound py m _ h (drafts fresh seller r now) =
    rw (create_draft-shards py m fresh seller r now) h
Step-IsSound py m _ h (publishes id seller now) = publish-books py m h id seller now
Step-IsSound py m _ h (unpublishes id seller now) = rw (unpublish-shards py m id seller now) h
Step-IsSound py m _ h (deletes id seller now) = rw (delete-shards py m id seller now) h
Step-IsSound py m _ h (acquires id buyer now) = acquire-books py m h id buyer now
Step-IsSound py m _ h (likes id user now) = rw (like-shards py m id user now) h
Step-IsSound py m _ h (unlikes id user) = rw (unlike-shards py m id user) h
Step-IsSound py m _ h (takes_down fresh id actor reason note now) =
    takedown-books py m h fresh id actor reason note now
Step-IsSound py m _ h (restores fresh id actor now) = rw (restore-shards py m fresh id actor now) h

-- However the calls that write follow one another from an empty market over a ledger whose books
-- balance, whether they succeed or raise, the books balance: no balance is negative, each wallet's
-- totals explain its balance, and each balance is the sum of that user's ledger lines.
pub reached_books_balance :
    (py : Python) (s : ShardStore) (m : Market) → IsSound s → Reach py s m → IsSound m.shards
reached_books_balance py s _ h start = h
reached_books_balance py s _ h (later {m} {m'} before step) =
    Step-IsSound py m m' (reached_books_balance py s m h before) step
