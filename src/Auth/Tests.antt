-- ===== src/Auth/Tests.antt =====
-- The theorems on users at concrete stores.
use ggumirror_be.Base.{◌≡◌, refl, true, false, some, List, [], ◌∷◌, arith}
use ggumirror_be.Base.Text.{Text, codes, text_eqb, text_eq}
use ggumirror_be.Base.Dict.{get, insert}
use ggumirror_be.Base.Exec.{err, display_name_cooldown}
use ggumirror_be.Auth.Models.{User, Unicode, display_name_key, can_change, next_change_at}
use ggumirror_be.Auth.Store.{AuthStore, empty_auth, new_user, set_display_name, create_guest_user}
use ggumirror_be.Auth.Accounts.{
  AuthCall, make_guest, set_name, run_auth, run_auths, names_unique, rename_waits,
}
use ggumirror_be.Shards.Tests.{plain, alice}

abbrev python : Unicode
python = record { nfc = plain; strip = plain; casefold = plain; has_control = λ t. false }

abbrev people : AuthStore
people = record empty_auth { users = (alice, new_user alice true 1) ∷ [] }

abbrev rose : Text
rose = codes "rose"

abbrev calls : List AuthCall
calls = make_guest alice 1 ∷ set_name alice rose 2 ∷ []

names_unique_example : alice ≡ alice
unfolding run_auths run_auth create_guest_user new_user set_display_name can_change next_change_at
    get insert text_eqb display_name_key
names_unique_example =
    let user : User = record (new_user alice true 1) {
      display_name = some rose;
      display_name_changed_at = some 2;
    } in
    names_unique python plain calls alice alice user user rose rose refl refl refl refl refl

rename_waits_example :
    let s = (set_display_name python alice rose 2 people).1 in
    set_display_name python alice (codes "lily") 3 s ≡ (err display_name_cooldown, s)
unfolding set_display_name can_change next_change_at get text_eqb new_user
rename_waits_example = rename_waits python alice rose (codes "lily") 2 3 people refl (omega arith)
