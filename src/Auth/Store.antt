-- ===== src/Auth/Store.antt =====
-- app/auth/store.py, `InMemoryAuthStore`.
use ggumirror_be.Base.{ℕ, Bool, true, false, not, ◌&&◌, Option, none, some, [], if◌then◌else◌}
use ggumirror_be.Base.Text.{Text, text_eq, ◌==◌}
use ggumirror_be.Base.Dict.{Dict, get, insert, erase}
use ggumirror_be.Base.Exec.{
  Result, ok, err, key_error, display_name_cooldown, display_name_taken, store_unavailable,
}
use ggumirror_be.Auth.Models.{
  User, Session, Unicode, is_none, display_name_key, can_change, identity_key,
}

pub record AuthStore : Type 0 where
  pub users : Dict Text User
  pub identities : Dict Text Text
  pub sessions : Dict Text Session
  pub admins : Dict Text Bool
  pub name_claims : Dict Text Text

abbrev pub empty_auth : AuthStore
empty_auth = record { users = []; identities = []; sessions = []; admins = []; name_claims = [] }

-- `self.users[user_id]`
abbrev pub user_or_raise :
    {A : Type 0} → Option User → (User → Result A × AuthStore) → AuthStore → Result A × AuthStore
user_or_raise none next s = (err key_error, s)
user_or_raise (some user) next s = next user

-- The owner of a key is someone else.
abbrev pub is_other : Option Text → Text → Bool
is_other none u = false
is_other (some v) u = not (v == u)

module _ (py : Unicode) where
  abbrev pub key : Text → Text
  key = display_name_key py

  abbrev pub seeded : Text → Text → User → AuthStore → User × AuthStore
  seeded u name user s =
      let named = record user { display_name = some name } in
      if is_none user.display_name && is_none (get (key name) s.name_claims)
      then (
        named,
        record s {
          name_claims = insert (key name) u s.name_claims;
          users = insert u named s.users;
        },
      )
      else (user, s)

  abbrev pub done : {A : Type 0} → A × AuthStore → Result A × AuthStore
  done (a, s) = (ok a, s)

  unfoldable pub seed_display_name : Text → Text → AuthStore → Result User × AuthStore
  seed_display_name u name s = user_or_raise (get u s.users) (λ user. done (seeded u name user s)) s

  -- The old name is let go once the new one is held, unless they have one key.
  abbrev pub let_go : Option Text → Text → Dict Text Text → Dict Text Text
  let_go none name d = d
  let_go (some old) name d = if not (key old == key name) then erase (key old) d else d

  abbrev pub renamed : Text → Text → ℕ → User → AuthStore → User × AuthStore
  renamed u name now user s =
      let named = record user { display_name = some name; display_name_changed_at = some now } in
      (
        named,
        record s {
          name_claims = let_go user.display_name name (insert (key name) u s.name_claims);
          users = insert u named s.users;
        },
      )

  abbrev pub rename_checked : Text → Text → ℕ → User → AuthStore → Result User × AuthStore
  rename_checked u name now user s =
      if not (can_change user.display_name_changed_at now)
      then (err display_name_cooldown, s)
      else if is_other (get (key name) s.name_claims) u
      then (err display_name_taken, s)
      else done (renamed u name now user s)

  unfoldable pub set_display_name : Text → Text → ℕ → AuthStore → Result User × AuthStore
  set_display_name u name now s =
      user_or_raise (get u s.users) (λ user. rename_checked u name now user s) s

-- `User(…)`, with the id that `uuid4` makes
unfoldable pub new_user : Text → Bool → ℕ → User
new_user fresh guest now = record {
  id = fresh;
  created_at = now;
  updated_at = now;
  display_name = none;
  display_name_changed_at = none;
  is_guest = guest;
  claimed_by_user_id = none;
}

unfoldable pub create_guest_user : Text → ℕ → AuthStore → User × AuthStore
create_guest_user fresh now s =
    let user = new_user fresh true now in (user, record s { users = insert fresh user s.users })

-- `self.users[existing], False`
abbrev pub known : Option User → AuthStore → Result (User × Bool) × AuthStore
known none s = (err key_error, s)
known (some user) s = (ok (user, false), s)

module _ (sha256 : Text → Text) where
  abbrev pub identity_or :
      Option Text → Text → Text → ℕ → AuthStore → Result (User × Bool) × AuthStore
  identity_or (some existing) k fresh now s = known (get existing s.users) s
  identity_or none k fresh now s =
      let user = new_user fresh false now in
      (
        ok (user, true),
        record s { users = insert fresh user s.users; identities = insert k fresh s.identities },
      )

  unfoldable pub user_for_identity :
      Text → Text → Text → ℕ → AuthStore → Result (User × Bool) × AuthStore
  user_for_identity provider subject fresh now s =
      let k = identity_key sha256 provider subject in identity_or (get k s.identities) k fresh now s

  abbrev pub link_guest : Option User → Text → ℕ → AuthStore → Result (User × Bool) × AuthStore
  link_guest none k now s = (err store_unavailable, s)
  link_guest (some guest) k now s =
      let user = record guest { is_guest = false; updated_at = now } in
      if not guest.is_guest then (err store_unavailable, s) else (
        ok (user, true),
        record s {
          users = insert guest.id user s.users;
          identities = insert k guest.id s.identities;
        },
      )

  abbrev pub link_or : Option Text → Text → Text → ℕ → AuthStore → Result (User × Bool) × AuthStore
  link_or (some existing) k guest_id now s = known (get existing s.users) s
  link_or none k guest_id now s = link_guest (get guest_id s.users) k now s

  unfoldable pub link_identity :
      Text → Text → Text → ℕ → AuthStore → Result (User × Bool) × AuthStore
  link_identity provider subject guest_id now s =
      let k = identity_key sha256 provider subject in link_or (get k s.identities) k guest_id now s

abbrev pub claim_found : Option User → Text → Text → AuthStore → AuthStore
claim_found none guest_id claimed_by s = s
claim_found (some guest) guest_id claimed_by s =
    if not (is_none guest.claimed_by_user_id) then s else record s {
      users = insert guest_id (record guest { claimed_by_user_id = some claimed_by }) s.users;
    }

unfoldable pub mark_guest_claimed : Text → Text → AuthStore → AuthStore
mark_guest_claimed guest_id claimed_by s = claim_found (get guest_id s.users) guest_id claimed_by s

unfoldable pub create_session : Session → AuthStore → AuthStore
create_session session s = record s { sessions = insert session.token_hash session s.sessions }

unfoldable pub session_by_token_hash : Text → AuthStore → Option Session
session_by_token_hash token_hash s = get token_hash s.sessions

abbrev pub revoke_found : Option Session → Text → ℕ → AuthStore → Bool × AuthStore
revoke_found none token_hash now s = (false, s)
revoke_found (some session) token_hash now s =
    if not (is_none session.revoked_at) then (false, s) else (
      true,
      record s {
        sessions = insert token_hash (record session { revoked_at = some now }) s.sessions;
      },
    )

unfoldable pub revoke_session : Text → ℕ → AuthStore → Bool × AuthStore
revoke_session token_hash now s = revoke_found (get token_hash s.sessions) token_hash now s

abbrev pub or_false : Option Bool → Bool
or_false none = false
or_false (some b) = b

unfoldable pub is_admin : Text → AuthStore → Bool
is_admin u s = or_false (get u s.admins)
