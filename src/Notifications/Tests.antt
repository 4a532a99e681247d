-- ===== src/Notifications/Tests.antt =====
-- Three notifications, read in pages of one.
use mathlib.Core.List.{Perm}
use ggumirror_be.Base.{ℕ, ◌+◌, ◌≡◌, refl, none, List, [], ◌∷◌}
use ggumirror_be.Base.Int.{pos}
use ggumirror_be.Base.Text.{Text, codes, text_eqb}
use ggumirror_be.Base.Dict.{values, get}
use ggumirror_be.Base.Exec.{err, notification_not_found}
use ggumirror_be.Marketplace.Models.{NotificationEvent, marketplace_sale}
use ggumirror_be.Notifications.{Events, newest_first, place, is_newer, text_ltb, mark_read}
use ggumirror_be.Notifications.Pages.{IsDistinct, count, read_all}
use ggumirror_be.Notifications.Order.{events_of, IsNewestFirst}
use ggumirror_be.Notifications.Inbox.{
  InboxCall, creates, reads, deletes, run_inboxes, inbox_read_all,
}

abbrev sold_at : Text → Text → ℕ → NotificationEvent
sold_at id u now = record {
  id = id;
  user_id = u;
  kind = marketplace_sale;
  listing_id = codes "l1";
  content_type = codes "template";
  title_snapshot = codes "frame";
  shard_amount = pos 7;
  takedown_reason = none;
  takedown_paid = pos 0;
  created_at = now;
  read_at = none;
}

abbrev inbox : Events
inbox =
    (codes "n1", sold_at (codes "n1") (codes "alice") 10)
    ∷ (codes "n2", sold_at (codes "n2") (codes "bob") 11)
    ∷ (codes "n3", sold_at (codes "n3") (codes "alice") 12)
    ∷ []

inbox-newest_first :
    newest_first (codes "alice") (values inbox)
    ≡ sold_at (codes "n3") (codes "alice") 12 ∷ sold_at (codes "n1") (codes "alice") 10 ∷ []
unfolding newest_first place is_newer text_ltb values text_eqb
inbox-newest_first = refl

inbox-mark_read :
    mark_read (codes "bob") (codes "n1") 20 inbox ≡ (err notification_not_found, inbox)
unfolding mark_read get text_eqb
inbox-mark_read = refl

abbrev inbox_calls : List InboxCall
inbox_calls =
    creates (sold_at (codes "n1") (codes "alice") 10)
    ∷ creates (sold_at (codes "n2") (codes "bob") 11)
    ∷ creates (sold_at (codes "n3") (codes "alice") 12)
    ∷ reads (codes "alice") (codes "n1") 20
    ∷ deletes (codes "bob")
    ∷ []

inbox_read_all_example :
    let d = run_inboxes inbox_calls [] in
    let own = events_of (codes "alice") (values d) in
    let answer = read_all (count own + 1) (codes "alice") none 1 d in
    IsNewestFirst answer × IsDistinct answer × Perm answer own
inbox_read_all_example = inbox_read_all inbox_calls (codes "alice") 1
