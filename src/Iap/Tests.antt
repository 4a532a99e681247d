-- ===== src/Iap/Tests.antt =====
-- The theorems on purchases at a concrete service and store.
use ggumirror_be.Base.{◌≡◌, refl, true, false, none, some, List, [], ◌∷◌}
use ggumirror_be.Base.Int.{pos}
use ggumirror_be.Base.Text.{Text, codes, text_eqb, text_eq, pair_eq}
use ggumirror_be.Base.Dict.{get}
use ggumirror_be.Base.Exec.{ok, err, is_ok, transaction_already_claimed}
use ggumirror_be.Auth.Models.{User}
use ggumirror_be.Shards.Store.{empty_store}
use ggumirror_be.Shards.Scoped.{member}
use ggumirror_be.Shards.Ledger.{IsSound, balance_of}
use ggumirror_be.Shards.Tests.{plain, alice, bob, alice≢bob, empty_store-IsSound}
use ggumirror_be.Iap.Models.{
  VerifiedTransaction, VerifiedNotification, shard_amount, consumable_type, production, xcode,
  refund_notification, refund_full, account_token_user_id, same_account_token,
  parse_allowed_environments, allowed_parts,
}
use ggumirror_be.Iap.Service.{
  IapService, claimed_guest_of, check_shape, check_product, check_owner, checked_transaction,
  credit_iap,
}
use ggumirror_be.Iap.Refunds.{handle_refund}
use ggumirror_be.Iap.Notifications.{NotificationService}
use ggumirror_be.Iap.Credits.{IsUnclaimed}
use ggumirror_be.Iap.Claims.{credit_exclusive}
use ggumirror_be.Iap.Recovery.{full_refund_restores}
use ggumirror_be.Iap.Books.{
  IapCall, bring, notify, serve_iaps, serve_iaps-IsSound, xcode_never_pays,
}

-- Alice's purchase of ten shards.
abbrev bought : VerifiedTransaction
bought = record {
  transaction_id = codes "t1";
  product_id = codes "com.mark77234.ggumirror.shards.10";
  bundle_id = codes "app";
  environment = production;
  app_account_token = some alice;
  transaction_type = consumable_type;
  original_transaction_id = none;
  revocation_type = none;
  revocation_percentage_milliunits = none;
}

abbrev revoked : VerifiedTransaction
revoked = record bought { revocation_type = some refund_full }

abbrev same_parts : Text → List Text
same_parts t = t ∷ []

-- A shop whose verifier reads every text as one transaction, for whom every text is a UUID.
abbrev shop : VerifiedTransaction → IapService
shop t = record {
  is_configured = true;
  verify = λ signed. ok t;
  bundle_id = codes "app";
  allowed_environments = production ∷ [];
  users = none;
  sha256 = plain;
  uuid = λ t. some t;
  strip = plain;
}

abbrev alice_account : User
alice_account = record {
  id = alice;
  created_at = 1;
  updated_at = 1;
  display_name = none;
  display_name_changed_at = none;
  is_guest = false;
  claimed_by_user_id = none;
}

abbrev refund_notice : VerifiedNotification
refund_notice = record {
  notification_type = refund_notification;
  subtype = none;
  notification_uuid = codes "n1";
  bundle_id = codes "app";
  app_apple_id = none;
  environment = production;
  transaction = some revoked;
}

bought-IsUnclaimed :
    IsUnclaimed (shop bought) alice_account bought (pos 10) (codes "e1") 10 empty_store
unfolding get
bought-IsUnclaimed = record {
  sound = empty_store-IsSound;
  named = λ e. cc;
  unclaimed = refl;
  unpaid = refl;
}

full_refund_restores_example :
    let s = (credit_iap (shop bought) alice_account (codes "jws") (codes "e1") 10 empty_store).1 in
    let (answer, after) = handle_refund plain (λ t. some t) refund_notice 20 s in
    (answer ≡ ok tt) × (balance_of after alice ≡ balance_of empty_store alice)
unfolding checked_transaction check_shape check_product check_owner shard_amount get text_eqb member
    same_account_token account_token_user_id
full_refund_restores_example =
    full_refund_restores (shop bought) alice_account bought revoked (pos 10) (codes "e1") 10
      empty_store (codes "jws") refund_notice 20 refl bought-IsUnclaimed refl
      (record { same_id = refl; same_product = refl; same_environment = refl; full = refl }) refl
      refl

-- Bob brings alice's transaction, which names the guest that he was.
abbrev bob_account : User
bob_account = record alice_account { id = bob }

abbrev guest : User
guest = record alice_account { is_guest = true; claimed_by_user_id = some bob }

abbrev family_shop : IapService
family_shop = record (shop bought) { users = some (λ u. ok (some guest)) }

family-IsUnclaimed :
    IsUnclaimed family_shop alice_account bought (pos 10) (codes "e1") 10 empty_store
family-IsUnclaimed = record {
  sound = empty_store-IsSound;
  named = bought-IsUnclaimed.named;
  unclaimed = bought-IsUnclaimed.unclaimed;
  unpaid = bought-IsUnclaimed.unpaid;
}

credit_exclusive_example :
    let s = (credit_iap family_shop alice_account (codes "jws") (codes "e1") 10 empty_store).1 in
    credit_iap family_shop bob_account (codes "jws") (codes "e2") 11 s
    ≡ (err transaction_already_claimed, s)
unfolding checked_transaction check_shape check_product check_owner claimed_guest_of shard_amount
    get text_eqb member same_account_token
credit_exclusive_example =
    credit_exclusive family_shop alice_account bob_account bought bought (pos 10) (pos 10)
      (codes "jws") (codes "jws") (codes "e1") (codes "e2") 10 11 empty_store refl
      family-IsUnclaimed refl refl alice≢bob

abbrev local : VerifiedTransaction
local = record bought { environment = xcode }

xcode_never_pays_example :
    (is_ok (credit_iap (shop local) alice_account (codes "jws") (codes "e1") 10 empty_store).0
      ≡ false)
    × ((credit_iap (shop local) alice_account (codes "jws") (codes "e1") 10 empty_store).1
        ≡ empty_store)
unfolding parse_allowed_environments allowed_parts member text_eqb
xcode_never_pays_example =
    xcode_never_pays (shop local) same_parts production alice_account (codes "jws") (codes "e1")
      local 10 empty_store refl refl refl

abbrev listener : NotificationService
listener = record {
  is_configured = true;
  verify_notification = some (λ signed. ok refund_notice);
  bundle_id = codes "app";
  allowed_environments = production ∷ [];
  app_apple_id = none;
  has_refunds = true;
  sha256 = plain;
  uuid = λ t. some t;
  strip = plain;
}

abbrev iap_calls : List IapCall
iap_calls = bring alice_account (codes "jws") (codes "e1") 10 ∷ notify (codes "jws") 20 ∷ []

serve_iaps-IsSound_example : IsSound (serve_iaps (shop bought) listener iap_calls empty_store)
serve_iaps-IsSound_example =
    serve_iaps-IsSound (shop bought) listener iap_calls empty_store empty_store-IsSound
