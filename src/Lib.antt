-- ===== src/Lib.antt =====
-- The server of GguMirror (app/): users earn and spend shards, and trade decorated mirrors and
-- stickers for them, buy shards from Apple and draw stickers with an image service. The shard ledger
-- is the authority on every balance; the marketplace changes listings, ownerships and notifications
-- in the same commit as the shards that pay for them. Room for more mirrors and the templates that
-- come with the app are bought from the same ledger.
--
-- The parts and their files:
-- - Canonical: the encoding of a list of texts behind every document key (app/shards/models.py,
--   `idempotency_hash`, and the id functions of app/marketplace/models.py and
--   app/notifications/models.py). Its laws stand in
--   Canonical/Injective.
-- - Transaction: `InMemoryTransaction` of app/shards/store.py. A write is a function that returns the
--   new state with its undo, or raises. Transaction/Atomic has a commit beside the plain sequence of
--   its writes; Transaction/Total is about writes that never raise.
-- - Shards: app/shards. Models, Store (`wallet`, `apply`), Refund (`refund`, `reverse_refund`), Scoped
--   (`apply_in_transaction` and the context of one attempt), Guest (`claim_guest_wallet`), Service
--   (`ShardLedgerService`), Keys (`idempotency_hash`) and Attendance (app/shards/attendance.py). The
--   ledger's laws stand in Ledger, ApplyLaws, Once, RefundLaws, RefundOnce, Reversal, ScopedLaws,
--   Transfer, Staging, Waiting, ServiceLaws, GuestLaws and AttendanceLaws.
-- - Marketplace: app/marketplace/models.py, the in-memory store of app/marketplace/store.py and
--   `create_draft` of app/marketplace/service.py, with the notification record of app/notifications.
--   Models, Market (the state and its reads), Publish, Lifecycle, Acquire, Likes and Moderation have
--   the operations; Settling, Failures, Refusals, AcquireLaws, PublishLaws, LikeLaws, ModerationLaws,
--   LifecycleLaws and Titles, TitleSteps, TitleReach, Books, Unmoved, Reach, Owned, OwnedSales, Again
--   have the laws. The marketplace calls the
--   ledger through `scoped_change`, which collects writes, and commits them with its own.
-- - Capacity: app/capacity/models.py and the in-memory store of app/capacity/store.py; Laws and Failures
--   have the laws. A purchase of slots commits its own write with the ledger's.
-- - Catalog: app/catalog/models.py, the in-memory store of store.py and service.py; Laws and Paid have
--   the laws. A purchase debits the ledger and then writes the record, under the store's lock.
-- - Ai: app/ai/models.py, the in-memory store of store.py, the in-memory storage of storage.py,
--   prompt.py and service.py. Models has the job and its states, Store the compare-and-set operations,
--   Prompt the normalization, Service the state that a call works on and what it meets outside
--   (`Outside`), Jobs `AIStickerService`. The laws stand in Transitions, Leases, Refunds, Recovery,
--   Generate, Results, Lines, Made, JobBooks, Books and Prompt/Laws. A job debits the price under its own
--   id and credits it
--   back under the id of its refund, both through the ledger's service. Mirror is mirror.py, which does
--   the same in one call without a job; its laws stand in Mirror/Laws.
-- - Auth: app/auth/models.py, app/auth/profile.py and the in-memory store of app/auth/store.py. Names
--   has the invariant of the name claims and Accounts what the operations do to it.
-- - Iap: app/iap/models.py, service.py, refunds.py and notifications.py. A purchase credits the ledger
--   with an exclusive claim on Apple's transaction; a notification of a refund takes shards back by a
--   plan made from the claim's document. The laws stand in Credits, Claims, Amounts, Recovery and Books;
--   Shards/Payments has what a credit and a debit do to the books, for these and for Ai.
-- - Ads: app/ads/models.py, store.py and service.py, with the check of Google's signature as a
--   parameter. A callback credits one shard under its transaction id and the quota of its day; Grants
--   and Quota have the laws.
-- - Notifications: the in-memory store of app/notifications/store.py and the pages of its service;
--   Pages has what a client reads that follows the cursors, Inbox the calls that write, Order what the
--   newest first are. The record
--   stands with the marketplace, which creates most of them.
-- - Base: shared names, Python's integers over the native numbers, texts, dictionaries, results.
--
-- How the code is read:
-- - one call of a store is one step from a state to a result and a state; a raise is the value `err` of
--   the exception's class. Most of the stores' methods that write hold a lock for that. The methods of
--   `InMemoryAuthStore` (app/auth/store.py) and of the in-memory storage, `delete` of the marketplace's
--   in-memory store and the reads take no lock: for them one step per call is the behaviour of calls that
--   follow one another. A purchase of slots runs under the ledger's lock;
-- - `generate` and the other methods of `AIStickerService` call the job store, the ledger, the storage and
--   the image service one after another and are one step each here, with nothing in between, and so are
--   the methods of the purchase and advertisement services. Interleavings of workers on one job are the
--   sequences of the job store's calls in Ai/Transitions and Ai/Leases;
-- - texts are lists of UTF-8 bytes, a dictionary is an association list in insertion order, and a
--   time is a number of the clock, one per call;
-- - ids that the code draws with `uuid4` come in as an argument; `hashlib.sha256`,
--   `unicodedata.normalize`, `str.strip`, `str.casefold` and `strftime` are parameters, and a theorem
--   that needs a hash without collisions says so with `IsCollisionFree`;
-- - Apple's verifier, Google's (`verify` of app/ads/verifier.py), `uuid.UUID`, `str.split`,
--   `str.isspace` and `unicodedata.category` are parameters too; a prompt and a request id are lists of
--   code points, since the code asks for the category of each character;
-- - within one call of `AIStickerService` the clock is read at its start and after the image
--   service's answer, which are `now` and `later` of `Outside`. The other fields are the ids of new
--   ledger lines, the image service's answer, and whether the calls fail whose failure the code catches:
--   the storage's `put`, `exists` and `delete`, the removal of an orphan's image, and the ledger's refund.
--   A ledger's connection that fails at the debit, a job store that fails, and a storage that fails at
--   `get` raise out of the call and are not modelled;
-- - amounts are Python integers (`ℤ`), counters of a quota are natural numbers; Python integers do not
--   overflow, so there is no bound but the code's own `MAX_DELTA`;
-- - `int(document.get(…) or 0)` is read for the integers that the program stores;
-- - the decimal length in the encoding is computed on the number plus one as fuel, which is enough
--   since a number has fewer digits than that; a client that follows the cursors of the notifications
--   is on fuel too, and one more than there are notifications is enough;
-- - the notification store is always there, and `takedown` is always handed the ledger, as app/main.py
--   wires them, and the wording of a takedown notification is kept as its reason and the shards paid.
--
-- Not modelled: the Firestore stores (transactions over a network; the in-memory stores state the same
-- contract), the checks of Apple's signatures and of Google's callbacks, the image services, account
-- deletion, push, and the HTTP layer with its wiring. Of the
-- marketplace's service only `create_draft` is modelled; of the notifications, preferences, the digest
-- and delivery are not. Logging is left out everywhere.
pub mod Ads
pub mod Ai
pub mod Auth
pub mod Base
pub mod Canonical
pub mod Capacity
pub mod Catalog
pub mod Iap
pub mod Marketplace
pub mod Notifications
pub mod Shards
pub mod Transaction
