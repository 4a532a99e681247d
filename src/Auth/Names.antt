-- ===== src/Auth/Names.antt =====
-- Who holds a display name (app/auth/store.py: `seed_display_name`, `set_display_name` and the other
-- methods that write users).
use ggumirror_be.Base.{
  ℕ, ◌≡◌, refl, ap, ◌∙◌, sym, inl, inr, Bool, true, false, ◌&&◌, Option, none, some, arith,
  Bool-cases, Option-cases,
}
use ggumirror_be.Base.Text.{Text, text_eq, text_eqb_iff, ◌==◌}
use ggumirror_be.Base.Dict.{Dict, get, insert, get-insert, get-erase, get-insert_self}
use ggumirror_be.Auth.Models.{User, Unicode, is_none, display_name_key, can_change}
use ggumirror_be.Auth.Store.{
  AuthStore, is_other, key, let_go, seeded, renamed, seed_display_name, set_display_name, new_user,
}

module _ (py : Unicode) where
  -- Every user is filed under their id, and holds the key of their display name.
  pub record HoldsNames (s : AuthStore) : Type 0 where
    pub filed : (k : Text) (x : User) → get k s.users ≡ some x → x.id ≡ k
    pub held :
        (k : Text) (x : User) (n : Text)
        → get k s.users ≡ some x
        → x.display_name ≡ some n
        → get (display_name_key py n) s.name_claims ≡ some k

  -- One user written under their id, with a display name that the claims give them.
  put-HoldsNames :
      (s s' : AuthStore) (u : Text) (x : User)
      → HoldsNames s
      → s'.users ≡ insert u x s.users
      → x.id ≡ u
      → ((n : Text) → x.display_name ≡ some n → get (key py n) s'.name_claims ≡ some u)
      → ((k : Text) (n : Text)
          → (k == u) ≡ false
          → get (key py n) s.name_claims ≡ some k
          → get (key py n) s'.name_claims ≡ some k)
      → HoldsNames s'
  put-HoldsNames s s' u x h users own mine others = record {
    filed = λ k y e. elim (Bool-cases (k == u)) [
      | inl same ↦
          ground (arith, h.filed k y, ap (get k) users ∙ get-insert k u x s.users, text_eqb_iff k u)
      | inr other ↦ h.filed k y (ground (arith, ap (get k) users ∙ get-insert k u x s.users))
    ];
    held = λ k y n e d. elim (Bool-cases (k == u)) [
      | inl same ↦
          let here : x ≡ y = ground (arith, ap (get k) users ∙ get-insert k u x s.users) in
          let k≡u : k ≡ u = (text_eqb_iff k u).0 same in mine n (rw here d) ∙ ap some (sym k≡u)
      | inr other ↦
          let there : get k s.users ≡ some y =
            ground (arith, ap (get k) users ∙ get-insert k u x s.users) in
          others k n other (h.held k y n there d)
    ];
  }

  let_go-kept :
      (old : Option Text) (name : Text) (j : Text) (d : Dict Text Text)
      → ((n : Text) → old ≡ some n → (j == key py n) ≡ false)
      → get j (let_go py old name d) ≡ get j d
  let_go-kept none name j d h = refl
  let_go-kept (some n) name j d h = elim (Bool-cases (key py n == key py name)) [
    | inl same ↦ rw same refl
    | inr other ↦ rw other (get-erase j (key py n) d (h n refl))
  ]

  let_go-new :
      (old : Option Text) (name u : Text) (d : Dict Text Text)
      → get (key py name) (let_go py old name (insert (key py name) u d)) ≡ some u
  let_go-new none name u d = get-insert_self (key py name) u d
  let_go-new (some n) name u d = elim (Bool-cases (key py n == key py name)) [
    | inl same ↦ rw same (get-insert_self (key py name) u d)
    | inr other ↦
        let apart : (key py name == key py n) ≡ false =
          ground
            (arith, text_eqb_iff (key py n) (key py name), text_eqb_iff (key py name) (key py n)) in
        rw other (
          get-erase (key py name) (key py n) (insert (key py name) u d) apart
          ∙ get-insert_self (key py name) u d)
  ]

  renamed-HoldsNames :
      (u name : Text) (now : ℕ) (user : User) (s : AuthStore)
      → get u s.users ≡ some user
      → is_other (get (key py name) s.name_claims) u ≡ false
      → HoldsNames s
      → HoldsNames (renamed py u name now user s).1
  renamed-HoldsNames u name now user s there free h =
      put-HoldsNames s _ u (renamed py u name now user s).0 h refl (h.filed u user there)
        (λ n e. mine n e) (λ k n other e. others k n other e)
    where
      mine :
          (n : Text)
          → some name ≡ some n
          → get (key py n) (renamed py u name now user s).1.name_claims ≡ some u
      mine n e =
          let same : name ≡ n = cc in
          rw (← same) (let_go-new user.display_name name u s.name_claims)

      others :
          (k n : Text)
          → (k == u) ≡ false
          → get (key py n) s.name_claims ≡ some k
          → get (key py n) (renamed py u name now user s).1.name_claims ≡ some k
      others k n other e =
          let_go-kept user.display_name name (key py n) (insert (key py name) u s.name_claims)
            (λ m d. ground (
              arith,
              h.held u user m there,
              e,
              text_eqb_iff (key py n) (key py m),
              text_eqb_iff k u,
            ))
          ∙ ground (
            arith,
            get-insert (key py n) (key py name) u s.name_claims,
            e,
            free,
            text_eqb_iff (key py n) (key py name),
            text_eqb_iff k u,
          )

  seeded-HoldsNames :
      (u name : Text) (user : User) (s : AuthStore)
      → get u s.users ≡ some user
      → HoldsNames s
      → HoldsNames (seeded py u name user s).1
  seeded-HoldsNames u name user s there h =
      elim (Bool-cases (is_none user.display_name && is_none (get (key py name) s.name_claims))) [
        | inr kept ↦ rw kept h
        | inl fills ↦ rw fills (
            put-HoldsNames s _ u (record user { display_name = some name }) h refl
              (h.filed u user there) mine (λ k n other e. others fills k n e))
      ]
    where
      mine :
          (n : Text)
          → some name ≡ some n
          → get (key py n) (insert (key py name) u s.name_claims) ≡ some u
      mine n e =
          let same : name ≡ n = cc in rw (← same) (get-insert_self (key py name) u s.name_claims)

      others :
          (is_none user.display_name && is_none (get (key py name) s.name_claims)) ≡ true
          → (k n : Text) → get (key py n) s.name_claims ≡ some k
          → get (key py n) (insert (key py name) u s.name_claims) ≡ some k
      others fills k n e = ground (
        arith,
        fills,
        get-insert (key py n) (key py name) u s.name_claims,
        e,
        text_eqb_iff (key py n) (key py name),
      )

  -- A user written again under the same display name.
  pub rewrite-HoldsNames :
      (s s' : AuthStore) (u : Text) (user x : User)
      → HoldsNames s
      → get u s.users ≡ some user
      → s'.users ≡ insert u x s.users
      → x.id ≡ user.id
      → x.display_name ≡ user.display_name
      → s'.name_claims ≡ s.name_claims
      → HoldsNames s'
  rewrite-HoldsNames s s' u user x h there users own name claims =
      put-HoldsNames s s' u x h users (own ∙ h.filed u user there)
        (λ n e. ap (get (key py n)) claims ∙ h.held u user n there (sym name ∙ e))
        (λ k n other e. ap (get (key py n)) claims ∙ e)

  -- A user who has no display name yet.
  pub fresh-HoldsNames :
      (s s' : AuthStore) (u : Text) (guest : Bool) (now : ℕ)
      → HoldsNames s
      → s'.users ≡ insert u (new_user u guest now) s.users
      → s'.name_claims ≡ s.name_claims
      → HoldsNames s'
  unfolding new_user
  fresh-HoldsNames s s' u guest now h users claims =
      put-HoldsNames s s' u (new_user u guest now) h users refl (λ n e. cc)
        (λ k n other e. ap (get (key py n)) claims ∙ e)

  pub set_display_name-HoldsNames :
      (u name : Text) (now : ℕ) (s : AuthStore)
      → HoldsNames s
      → HoldsNames (set_display_name py u name now s).1
  unfolding set_display_name
  set_display_name-HoldsNames u name now s h = elim (Option-cases (get u s.users)) [
    | inl missing ↦ rw missing h
    | inr (user, there) ↦ elim (Bool-cases (can_change user.display_name_changed_at now)) [
      | inr early ↦ rw there (rw early h)
      | inl may ↦ elim (Bool-cases (is_other (get (key py name) s.name_claims) u)) [
        | inl taken ↦ rw there (rw may (rw taken h))
        | inr free ↦ rw there (rw may (rw free (renamed-HoldsNames u name now user s there free h)))
      ]
    ]
  ]

  pub seed_display_name-HoldsNames :
      (u name : Text) (s : AuthStore) → HoldsNames s → HoldsNames (seed_display_name py u name s).1
  unfolding seed_display_name
  seed_display_name-HoldsNames u name s h = elim (Option-cases (get u s.users)) [
    | inl missing ↦ rw missing h
    | inr (user, there) ↦ rw there (seeded-HoldsNames u name user s there h)
  ]
