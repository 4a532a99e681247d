-- ===== src/Auth/Accounts.antt =====
-- The users that the methods of app/auth/store.py leave behind, along every sequence of calls.
use ggumirror_be.Base.{
  ℕ, ◌+◌, ◌<◌, ◌≡◌, refl, ap, ◌∙◌, sym, inl, inr, Bool, true, false, not, Option, none, some, List,
  [], ◌∷◌, arith, if-all, Option-cases,
}
use ggumirror_be.Base.Text.{Text, text_eq}
use ggumirror_be.Base.Dict.{Dict, get, insert, get-insert_self}
use ggumirror_be.Base.Exec.{Result, ok, err, is_ok, display_name_cooldown}
use ggumirror_be.Auth.Models.{
  User, Session, Unicode, is_none, display_name_key, identity_key, can_change, next_change_at,
  rename_cooldown,
}
use ggumirror_be.Auth.Store.{
  AuthStore, empty_auth, seed_display_name, set_display_name, create_guest_user, identity_or,
  user_for_identity, link_or, link_identity, mark_guest_claimed, create_session, revoke_session,
  known,
}
use ggumirror_be.Auth.Names.{
  HoldsNames, rewrite-HoldsNames, fresh-HoldsNames, set_display_name-HoldsNames,
  seed_display_name-HoldsNames,
}

module _ (py : Unicode) where
  known-HoldsNames :
      (x : Option User) (s : AuthStore) → HoldsNames py s → HoldsNames py (known x s).1
  known-HoldsNames none s h = h
  known-HoldsNames (some user) s h = h

  identity_or-HoldsNames :
      (sha256 : Text → Text) (found : Option Text) (k fresh : Text) (now : ℕ) (s : AuthStore)
      → HoldsNames py s
      → HoldsNames py (identity_or sha256 found k fresh now s).1
  identity_or-HoldsNames sha256 (some existing) k fresh now s h =
      known-HoldsNames (get existing s.users) s h
  identity_or-HoldsNames sha256 none k fresh now s h =
      fresh-HoldsNames py s _ fresh false now h refl refl

  link_or-HoldsNames :
      (sha256 : Text → Text) (found : Option Text) (k guest_id : Text) (now : ℕ) (s : AuthStore)
      → HoldsNames py s
      → HoldsNames py (link_or sha256 found k guest_id now s).1
  link_or-HoldsNames sha256 (some existing) k guest_id now s h =
      known-HoldsNames (get existing s.users) s h
  link_or-HoldsNames sha256 none k guest_id now s h = elim (Option-cases (get guest_id s.users)) [
    | inl missing ↦ rw missing h
    | inr (guest, there) ↦
        let here : get guest.id s.users ≡ some guest =
          ap (λ (t : Text). get t s.users) (h.filed guest_id guest there) ∙ there in
        rw there (
          if-all (λ (out : Result (User × Bool) × AuthStore). HoldsNames py out.1)
            (not guest.is_guest) _ _ h
            (rewrite-HoldsNames py s _ guest.id guest
              (record guest { is_guest = false; updated_at = now }) h here refl refl refl refl))
  ]

  claim_found-HoldsNames :
      (guest_id claimed_by : Text) (s : AuthStore)
      → HoldsNames py s
      → HoldsNames py (mark_guest_claimed guest_id claimed_by s)
  unfolding mark_guest_claimed
  claim_found-HoldsNames guest_id claimed_by s h = elim (Option-cases (get guest_id s.users)) [
    | inl missing ↦ rw missing h
    | inr (guest, there) ↦ rw there (
        if-all (HoldsNames py) (not (is_none guest.claimed_by_user_id)) _ _ h (
          rewrite-HoldsNames py s _ guest_id guest
            (record guest { claimed_by_user_id = some claimed_by }) h there refl refl refl refl))
  ]

  sessions-HoldsNames :
      (s : AuthStore) (sessions : Dict Text Session)
      → HoldsNames py s
      → HoldsNames py (record s { sessions = sessions })
  sessions-HoldsNames s sessions h = record { filed = h.filed; held = h.held }

  revoke-HoldsNames :
      (token_hash : Text) (now : ℕ) (s : AuthStore)
      → HoldsNames py s
      → HoldsNames py (revoke_session token_hash now s).1
  unfolding revoke_session
  revoke-HoldsNames token_hash now s h = elim (Option-cases (get token_hash s.sessions)) [
    | inl missing ↦ rw missing h
    | inr (session, there) ↦ rw there (
        if-all (λ (out : Bool × AuthStore). HoldsNames py out.1) (not (is_none session.revoked_at))
          _ _ h (sessions-HoldsNames s _ h))
  ]

-- One call of a method of the store that writes.
pub data AuthCall : Type 0 where
  seed_name : Text → Text → AuthCall
  set_name : Text → Text → ℕ → AuthCall
  make_guest : Text → ℕ → AuthCall
  sign_in : Text → Text → Text → ℕ → AuthCall
  link : Text → Text → Text → ℕ → AuthCall
  mark_claimed : Text → Text → AuthCall
  open_session : Session → AuthCall
  revoke : Text → ℕ → AuthCall

module _ (py : Unicode) (sha256 : Text → Text) where
  unfoldable pub run_auth : AuthCall → AuthStore → AuthStore
  run_auth (seed_name u name) s = (seed_display_name py u name s).1
  run_auth (set_name u name now) s = (set_display_name py u name now s).1
  run_auth (make_guest fresh now) s = (create_guest_user fresh now s).1
  run_auth (sign_in provider subject fresh now) s =
      (user_for_identity sha256 provider subject fresh now s).1
  run_auth (link provider subject guest_id now) s =
      (link_identity sha256 provider subject guest_id now s).1
  run_auth (mark_claimed guest_id by) s = mark_guest_claimed guest_id by s
  run_auth (open_session session) s = create_session session s
  run_auth (revoke token_hash now) s = (revoke_session token_hash now s).1

  unfoldable pub run_auths : List AuthCall → AuthStore → AuthStore
  run_auths [] s = s
  run_auths (c ∷ cs) s = run_auths cs (run_auth c s)

  run_auth-HoldsNames :
      (c : AuthCall) (s : AuthStore) → HoldsNames py s → HoldsNames py (run_auth c s)
  unfolding run_auth create_guest_user user_for_identity link_identity create_session
  run_auth-HoldsNames (seed_name u name) s h = seed_display_name-HoldsNames py u name s h
  run_auth-HoldsNames (set_name u name now) s h = set_display_name-HoldsNames py u name now s h
  run_auth-HoldsNames (make_guest fresh now) s h =
      fresh-HoldsNames py s _ fresh true now h refl refl
  run_auth-HoldsNames (sign_in provider subject fresh now) s h =
      let k = identity_key sha256 provider subject in
      identity_or-HoldsNames py sha256 (get k s.identities) k fresh now s h
  run_auth-HoldsNames (link provider subject guest_id now) s h =
      let k = identity_key sha256 provider subject in
      link_or-HoldsNames py sha256 (get k s.identities) k guest_id now s h
  run_auth-HoldsNames (mark_claimed guest_id by) s h = claim_found-HoldsNames py guest_id by s h
  run_auth-HoldsNames (open_session session) s h = sessions-HoldsNames py s _ h
  run_auth-HoldsNames (revoke token_hash now) s h = revoke-HoldsNames py token_hash now s h

  run_auths-HoldsNames :
      (cs : List AuthCall) (s : AuthStore) → HoldsNames py s → HoldsNames py (run_auths cs s)
  unfolding run_auths
  run_auths-HoldsNames [] s h = h
  run_auths-HoldsNames (c ∷ cs) s h =
      run_auths-HoldsNames cs (run_auth c s) (run_auth-HoldsNames c s h)

  empty-HoldsNames : HoldsNames py empty_auth
  unfolding get
  empty-HoldsNames = record { filed = λ k x e. cc; held = λ k x n e d. cc }

  -- Whatever calls of the store are made from the empty store on, two users whose display names are
  -- one name, as the name's key compares them, are one user.
  pub names_unique :
      (cs : List AuthCall) (u v : Text) (x y : User) (m n : Text)
      → get u (run_auths cs empty_auth).users ≡ some x
      → get v (run_auths cs empty_auth).users ≡ some y
      → x.display_name ≡ some m
      → y.display_name ≡ some n
      → display_name_key py m ≡ display_name_key py n
      → u ≡ v
  names_unique cs u v x y m n there there' name name' same =
      let s = run_auths cs empty_auth in
      let h = run_auths-HoldsNames cs empty_auth empty-HoldsNames in
      let a = h.held u x m there name in
      let b = h.held v y n there' name' in
      let owner : some u ≡ some v = sym a ∙ ap (λ (k : Text). get k s.name_claims) same ∙ b in cc

set_written :
    (py : Unicode) (u name : Text) (now : ℕ) (s : AuthStore)
    → is_ok (set_display_name py u name now s).0 ≡ true
    → (x : User) × (get u (set_display_name py u name now s).1.users ≡ some x)
      × (x.display_name_changed_at ≡ some now)
unfolding set_display_name
set_written py u name now s done = elim (Option-cases (get u s.users)) [
  | inl missing ↦ absurd (ground arith)
  | inr (user, there) ↦
      let named = record user { display_name = some name; display_name_changed_at = some now } in
      (named, ground (arith, there, get-insert_self u named s.users), refl)
]

set_early :
    (py : Unicode) (u name : Text) (now later : ℕ) (x : User) (s : AuthStore)
    → get u s.users ≡ some x
    → x.display_name_changed_at ≡ some now
    → later < now + rename_cooldown
    → set_display_name py u name later s ≡ (err display_name_cooldown, s)
unfolding set_display_name can_change next_change_at
set_early py u name now later x s there changed soon = ground arith

-- A user who has set a display name cannot set one again for thirty days: the call is refused and
-- changes nothing.
pub rename_waits :
    (py : Unicode) (u name again : Text) (now later : ℕ) (s : AuthStore)
    → is_ok (set_display_name py u name now s).0 ≡ true
    → later < now + rename_cooldown
    → let s' = (set_display_name py u name now s).1 in
      set_display_name py u again later s' ≡ (err display_name_cooldown, s')
rename_waits py u name again now later s done soon =
    let (x, there, changed) = set_written py u name now s done in
    set_early py u again now later x (set_display_name py u name now s).1 there changed soon

linked :
    (sha256 : Text → Text) (provider subject guest_id : Text) (now : ℕ) (guest : User)
    (s : AuthStore)
    → get (identity_key sha256 provider subject) s.identities ≡ none
    → get guest_id s.users ≡ some guest
    → guest.is_guest ≡ true
    → let account = record guest { is_guest = false; updated_at = now } in
      link_identity sha256 provider subject guest_id now s ≡ (
        ok (account, true),
        record s {
          users = insert guest.id account s.users;
          identities = insert (identity_key sha256 provider subject) guest.id s.identities;
        },
      )
unfolding link_identity
linked sha256 provider subject guest_id now guest s new there visitor = ground arith

signed_in :
    (sha256 : Text → Text) (provider subject fresh u : Text) (now : ℕ) (x : User) (s : AuthStore)
    → get (identity_key sha256 provider subject) s.identities ≡ some u
    → get u s.users ≡ some x
    → user_for_identity sha256 provider subject fresh now s ≡ (ok (x, false), s)
unfolding user_for_identity
signed_in sha256 provider subject fresh u now x s e there = rw e (rw there refl)

-- A guest who links an identity that is new keeps their id, and signing in with that identity gives
-- the same user from then on.
pub link-sign_in :
    (sha256 : Text → Text) (provider subject guest_id fresh : Text) (now later : ℕ) (guest : User)
    (s : AuthStore)
    → get (identity_key sha256 provider subject) s.identities ≡ none
    → get guest_id s.users ≡ some guest
    → guest.is_guest ≡ true
    → let account = record guest { is_guest = false; updated_at = now } in
      let s' = (link_identity sha256 provider subject guest_id now s).1 in
      ((link_identity sha256 provider subject guest_id now s).0 ≡ ok (account, true))
      × (user_for_identity sha256 provider subject fresh later s' ≡ (ok (account, false), s'))
link-sign_in sha256 provider subject guest_id fresh now later guest s new there visitor =
    let account = record guest { is_guest = false; updated_at = now } in
    rw (linked sha256 provider subject guest_id now guest s new there visitor) (
      refl,
      signed_in sha256 provider subject fresh guest.id later account _
          (get-insert_self (identity_key sha256 provider subject) guest.id s.identities)
          (get-insert_self guest.id account s.users),
    )
