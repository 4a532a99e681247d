-- ===== src/Iap/Notifications.antt =====
-- app/iap/notifications.py, `AppStoreNotificationService`.
use ggumirror_be.Base.{ℕ, Bool, false, not, ◌&&◌, ◌||◌, Option, some, List, if◌then◌else◌}
use ggumirror_be.Base.Int.{ℤ, leb_ℤ}
use ggumirror_be.Base.Text.{Text, text_eq, ◌==◌}
use ggumirror_be.Base.Exec.{
  Result, ok, err, ◌>>=◌, ◌>>◌, raise_if, or_raise, iap_unavailable, invalid_transaction,
  environment_not_allowed, account_token_mismatch, notification_not_handled,
}
use ggumirror_be.Shards.Store.{ShardStore}
use ggumirror_be.Shards.Scoped.{member}
use ggumirror_be.Iap.Models.{
  VerifiedNotification, NotificationOutcome, acknowledged, acknowledged_notifications,
  refund_notification, refund_reversed_notification, production, Uuid,
}
use ggumirror_be.Iap.Service.{is_empty}
use ggumirror_be.Iap.Refunds.{handle_refund, handle_reversal}

-- The service's settings; a verifier may not know notifications.
pub record NotificationService : Type 0 where
  pub is_configured : Bool
  pub verify_notification : Option (Text → Result VerifiedNotification)
  pub bundle_id : Text
  pub allowed_environments : List Text
  pub app_apple_id : Option ℤ
  pub has_refunds : Bool
  pub sha256 : Text → Text
  pub uuid : Uuid
  pub strip : Text → Text

abbrev int_eqb : ℤ → ℤ → Bool
int_eqb a b = leb_ℤ a b && leb_ℤ b a

abbrev is_other_app : Option ℤ → Option ℤ → Bool
is_other_app (some a) (some b) = not (int_eqb a b)
is_other_app _ _ = false

module _ (c : NotificationService) where
  -- `_check`
  unfoldable pub check_notification : VerifiedNotification → Result (Unit {0})
  check_notification n = do
    raise_if (not (is_empty c.bundle_id) && not (n.bundle_id == c.bundle_id)) invalid_transaction
    raise_if (not (member n.environment c.allowed_environments)) environment_not_allowed
    raise_if (n.environment == production && is_other_app c.app_apple_id n.app_apple_id)
        account_token_mismatch

  abbrev pub answered : Result (Unit {0}) × ShardStore → Result NotificationOutcome × ShardStore
  answered (ok _, s) = (ok acknowledged, s)
  answered (err e, s) = (err e, s)

  -- `_route`
  unfoldable pub route :
      VerifiedNotification → ℕ → ShardStore → Result NotificationOutcome × ShardStore
  route n now s =
      let kind = n.notification_type in
      if kind == refund_notification || kind == refund_reversed_notification
      then (if not c.has_refunds
          then (err notification_not_handled, s)
          else answered (
              if kind == refund_notification
              then handle_refund c.sha256 c.uuid n now s
              else handle_reversal c.sha256 c.uuid n now s))
      else if member kind acknowledged_notifications
      then (ok acknowledged, s)
      else (err notification_not_handled, s)

  unfoldable pub checked_notification : Text → Result VerifiedNotification
  checked_notification signed = do
    raise_if (not c.is_configured) iap_unavailable
    raise_if (is_empty signed || is_empty (c.strip signed)) invalid_transaction
    verify ← or_raise c.verify_notification iap_unavailable
    n ← verify (c.strip signed)
    check_notification n
    ok n

  abbrev pub route_if :
      ℕ → ShardStore → Result VerifiedNotification → Result NotificationOutcome × ShardStore
  route_if now s (err e) = (err e, s)
  route_if now s (ok n) = route n now s

  -- `handle` of the notification service
  unfoldable pub handle_notification :
      Text → ℕ → ShardStore → Result NotificationOutcome × ShardStore
  handle_notification signed now s = route_if now s (checked_notification signed)
