-- ===== src/Auth/Models.antt =====
-- app/auth/models.py and app/auth/profile.py: users, sessions and display names. Python's `hashlib`
-- and the functions of `str` and `unicodedata` on names are parameters.
use ggumirror_be.Base.{
  ℕ, ◌+◌, ◌*◌, Bool, true, false, ◌&&◌, ◌||◌, Option, none, some, [], ◌∷◌, ◌++◌, leb, ltb,
}
use ggumirror_be.Base.Text.{Text, codes, char_count}
use ggumirror_be.Base.Exec.{Result, ok, ◌>>◌, raise_if, invalid_display_name}

-- Times and spans are in seconds of the server's clock.
abbrev pub session_lifetime : ℕ
session_lifetime = 30 * 86_400

abbrev pub rename_cooldown : ℕ
rename_cooldown = 30 * 86_400

abbrev pub max_display_name_length : ℕ
max_display_name_length = 20

abbrev pub min_display_name_length : ℕ
min_display_name_length = 1

pub record User : Type 0 where
  pub id : Text
  pub created_at : ℕ
  pub updated_at : ℕ
  pub display_name : Option Text
  pub display_name_changed_at : Option ℕ
  pub is_guest : Bool
  pub claimed_by_user_id : Option Text

pub record Session : Type 0 where
  pub token_hash : Text
  pub user_id : Text
  pub created_at : ℕ
  pub expires_at : ℕ
  pub revoked_at : Option ℕ

abbrev pub is_none : {A : Type 0} → Option A → Bool
is_none none = true
is_none (some a) = false

-- `Session.is_valid`
unfoldable pub is_valid : Session → ℕ → Bool
is_valid s now = is_none s.revoked_at && ltb now s.expires_at

unfoldable pub new_session : (Text → Text) → Text → Text → ℕ → Session
new_session sha256 u token now = record {
  token_hash = sha256 token;
  user_id = u;
  created_at = now;
  expires_at = now + session_lifetime;
  revoked_at = none;
}

unfoldable pub identity_key : (Text → Text) → Text → Text → Text
identity_key sha256 provider subject = sha256 (provider ++ codes ":" ++ subject)

-- What Python's strings do with a name: normal form C, stripping, folding, and whether a character
-- of a control, format or separator category occurs.
pub record Unicode : Type 0 where
  pub nfc : Text → Text
  pub strip : Text → Text
  pub casefold : Text → Text
  pub has_control : Text → Bool

abbrev is_empty : Text → Bool
is_empty [] = true
is_empty (c ∷ t) = false

unfoldable pub normalize_display_name : Unicode → Text → Result Text
normalize_display_name py raw = do
  let text = py.strip (py.nfc raw)
  raise_if (is_empty text) invalid_display_name
  raise_if (py.has_control text) invalid_display_name
  raise_if
      (ltb (char_count text) min_display_name_length
        || ltb max_display_name_length (char_count text))
      invalid_display_name
  ok text

unfoldable pub display_name_key : Unicode → Text → Text
display_name_key py raw = py.casefold (py.strip (py.nfc raw))

unfoldable pub next_change_at : Option ℕ → Option ℕ
next_change_at none = none
next_change_at (some changed) = some (changed + rename_cooldown)

abbrev is_reached : Option ℕ → ℕ → Bool
is_reached none now = true
is_reached (some t) now = leb t now

unfoldable pub can_change : Option ℕ → ℕ → Bool
can_change changed now = is_reached (next_change_at changed) now
