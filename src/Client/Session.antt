-- ===== src/Client/Session.antt =====
-- client/src/app/core/services/token.service.ts and auth.service.ts, with the guards of
-- client/src/app/core/guards. `storage` is the entry `auth-user` of the local storage, `route` the
-- pages that were navigated to, newest first; the request that `logout` sends is not awaited.
use bid_battle.Prelude.{
  [], is_some, List, false, none, not, Bool, Option, String, if◌then◌else◌, some, ◌∷◌, ℕ,
}
use text.Mathlib.Text.{◌==◌ as str_eq}

pub record ClientUser : Type 0 where
  pub id : ℕ
  pub email : String
  pub first_name : String
  pub last_name : String
  pub avatar : Option String

pub data Page : Type 0 where
  home_page login_page : Page

pub record Session : Type 0 where
  pub access_token : Option String
  pub is_refreshing : Bool
  pub user : Option ClientUser
  pub storage : Option ClientUser
  pub route : List Page

-- when the page is loaded, the user comes from the storage
abbrev pub loaded : Option ClientUser → Session
loaded user = record {
  access_token = none;
  is_refreshing = false;
  user = user;
  storage = user;
  route = [];
}

-- `!!accessToken()`
abbrev pub has_text : Option String → Bool
has_text none = false
has_text (some t) = not (str_eq t "")

abbrev pub is_authenticated : Session → Bool
is_authenticated s = has_text s.access_token

abbrev pub refresh_access_token : String → Session → Session
refresh_access_token token s = record s { access_token = some token }

abbrev pub update_user : ClientUser → Session → Session
update_user user s = record s { user = some user; storage = some user }

unfoldable pub set_session : String → ClientUser → Session → Session
set_session token user s = update_user user (refresh_access_token token s)

abbrev navigate : Page → Session → Session
navigate page s = record s { route = page ∷ s.route }

unfoldable pub logout : Bool → Session → Session
logout redirect s =
    let t = record s { access_token = none; storage = none; user = none } in
    if redirect then navigate Page.login_page t else t

-- What a guard answers: the page may be shown, another one is shown, or a silent refresh decides.
pub data Verdict : Type 0 where
  allowed redirected_login redirected_home refresh_first : Verdict

unfoldable pub auth_guard : Bool → Session → Verdict
auth_guard is_browser s =
    if not is_browser
    then Verdict.allowed
    else if is_authenticated s
    then Verdict.allowed
    else if not (is_some s.user)
    then Verdict.redirected_login
    else Verdict.refresh_first

unfoldable pub guest_guard : Session → Verdict
guest_guard s = if not (is_authenticated s) then Verdict.allowed else Verdict.redirected_home
