-- ===== src/Marketplace/Titles.antt =====
-- The titles of published listings (app/marketplace/store.py, `title_claims`), under a write of one
-- listing.
use ggumirror_be.Base.{
  ◌≡◌, refl, ◌≢◌, ap, sym, ◌∙◌, true, false, inl, inr, some, arith, if◌then◌else◌, Bool-cases,
  Option-cases,
}
use mathlib.Core.Bool.{true≢false}
use ggumirror_be.Base.Text.{Text, text_eq, text_eqb_iff, ◌==◌}
use ggumirror_be.Base.Dict.{Dict, get, insert, get-insert, get-erase}
use ggumirror_be.Marketplace.Models.{Python, Listing, is_published, listing_title_key}
use ggumirror_be.Marketplace.Market.{Market, released, release_title, put_listing}

-- Listings stand under their ids, and a published one holds its title.
pub record IsTitled (py : Python) (m : Market) : Type 0 where
  pub named : (id : Text) (l : Listing) → get id m.listings ≡ some l → l.id ≡ id
  pub holds :
      (id : Text) (l : Listing)
      → get id m.listings ≡ some l
      → is_published l.status ≡ true
      → get (listing_title_key py l.title) m.title_claims ≡ some id

-- No two published listings have one title.
pub IsTitled-unique :
    (py : Python) (m : Market) (i j : Text) (k l : Listing)
    → IsTitled py m
    → get i m.listings ≡ some k
    → get j m.listings ≡ some l
    → is_published k.status ≡ true
    → is_published l.status ≡ true
    → listing_title_key py k.title ≡ listing_title_key py l.title
    → i ≡ j
IsTitled-unique py m i j k l h gi gj pk pl same = cc (h.holds i k gi pk, h.holds j l gj pl)

module _ (py : Python) (m m' : Market) (id : Text) (l : Listing) (h : IsTitled py m) where
  -- One listing is written, and every other published listing still holds its title.
  pub rewrite-IsTitled :
      m'.listings ≡ insert id l m.listings
      → l.id ≡ id
      → (is_published l.status ≡ true
          → get (listing_title_key py l.title) m'.title_claims ≡ some id)
      → ((j : Text) (t : Text)
          → j ≢ id
          → get t m.title_claims ≡ some j
          → get t m'.title_claims ≡ some j)
      → IsTitled py m'
  rewrite-IsTitled written name held kept =
      let at : (j : Text) → get j m'.listings ≡ (if j == id then some l else get j m.listings) =
        λ j. ap (get j) written ∙ get-insert j id l m.listings in
      record {
        named = λ j x g. elim (Bool-cases (j == id)) [
          | inl same ↦
              let here : l ≡ x = ground (arith, at j) in
              rw (← here, (text_eqb_iff j id).0 same) name
          | inr other ↦ h.named j x (ground (arith, at j))
        ];
        holds = λ j x g p. elim (Bool-cases (j == id)) [
          | inl same ↦
              let here : l ≡ x = ground (arith, at j) in
              let k : is_published l.status ≡ true = rw here p in
              rw (← here, (text_eqb_iff j id).0 same) (held k)
          | inr other ↦
              kept j (listing_title_key py x.title) (ground (arith, text_eqb_iff j id))
                (h.holds j x (ground (arith, at j)) p)
        ];
      }

-- `_release_title` takes away no title that another listing holds.
released-others :
    (key id j t : Text) (claims : Dict Text Text)
    → j ≢ id
    → get t claims ≡ some j
    → get t (released key id (get key claims) claims) ≡ some j
released-others key id j t claims other g = elim (Option-cases (get key claims)) [
  | inl e ↦ rw e g
  | inr (owner, e) ↦ elim (Bool-cases (owner == id)) [
    | inr differs ↦ rw (e, differs) g
    | inl same ↦
        let apart : (t == key) ≡ false =
          ground (arith, text_eqb_iff t key, text_eqb_iff owner id, other, e, g) in
        rw (e, same) (get-erase t key claims apart ∙ g)
  ]
]

module _ (py : Python) (m m' : Market) (id : Text) (k l : Listing) (h : IsTitled py m)
    (found : get id m.listings ≡ some k) where
  -- A listing that keeps its title and is published only if it was.
  pub retitled-IsTitled :
      m'.listings ≡ insert id l m.listings
      → m'.title_claims ≡ m.title_claims
      → l.id ≡ k.id
      → l.title ≡ k.title
      → (is_published l.status ≡ true → is_published k.status ≡ true)
      → IsTitled py m'
  retitled-IsTitled written same name title live =
      rewrite-IsTitled py m m' id l h written (name ∙ h.named id k found)
        (λ p. rw (same, title) (h.holds id k found (live p))) (λ j t other g. rw same g)

  -- A listing that leaves the store and gives up its title, where that is its own.
  pub withdrawn-IsTitled :
      m' ≡ release_title py k (put_listing l m)
      → l.id ≡ k.id
      → is_published l.status ≡ false
      → IsTitled py m'
  unfolding release_title put_listing
  withdrawn-IsTitled e name hidden =
      let same : k.id ≡ id = h.named id k found in
      let written : m'.listings ≡ insert id l m.listings = rw (e, name, same) refl in
      rewrite-IsTitled py m m' id l h written (name ∙ same)
        (λ p. absurd (true≢false (sym p ∙ hidden)))
        (λ j t other g.
          rw (e, same)
            (released-others (listing_title_key py k.title) id j t m.title_claims other g))
