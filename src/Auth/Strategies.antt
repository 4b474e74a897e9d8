-- ===== src/Auth/Strategies.antt =====
-- The profiles of the OAuth providers: google-oauth.strategy.ts and github-oauth.strategy.ts of
-- server/src/modules/auth/strategies.
-- An invalid profile is an `UnauthorizedException`; a text stands for its i18n key.
use bid_battle.Prelude.{find_where}
use bid_battle.Prelude.{
  drop, true, not, [], get_or, if◌then◌else◌, ◌&&◌, Bool, none, some, ◌∷◌, List, Option, String,
}
use Prim.Native.String.{◌++◌ as str_append}
use bid_battle.Auth.OAuth.{OAuthProfile}

pub record ProfileEmail : Type 0 where
  pub value : String
  pub primary : Bool
  pub verified : Bool

pub record GoogleProfile : Type 0 where
  pub id : String
  pub emails : List ProfileEmail
  pub given_name : Option String
  pub family_name : Option String
  pub photos : List String

-- GithubProfile: an empty name counts as none
pub record GithubProfile : Type 0 where
  pub id : String
  pub username : Option String
  pub display_name : Option String
  pub emails : List ProfileEmail
  pub photos : List String

abbrev first {ℓ} : {A : Type ℓ} → List A → Option A
first [] = none
first (x ∷ xs) = some x

-- A profile, or the key of what is wrong.
pub data Validated : Type 0 where
  valid : OAuthProfile → Validated
  invalid : String → Validated

abbrev google_profile : GoogleProfile → Option ProfileEmail → Validated
google_profile p none = Validated.invalid "auth.errors.google_email_not_verified"
google_profile p (some e) =
    if not e.verified
    then Validated.invalid "auth.errors.google_email_not_verified"
    else Validated.valid (record {
      provider_id = p.id;
      email = e.value;
      email_verified = true;
      first_name = get_or p.given_name "";
      last_name = get_or p.family_name "";
      avatar = first p.photos;
    })

unfoldable pub validate_google : GoogleProfile → Validated
validate_google p = google_profile p (first p.emails)

abbrev or_else {ℓ} : {A : Type ℓ} → Option A → Option A → Option A
or_else none b = b
or_else (some a) b = some a

-- the first email that is primary and verified, or the first one
abbrev pub primary_email : List ProfileEmail → Option ProfileEmail
primary_email emails = or_else (find_where (λ e. e.primary && e.verified) emails) (first emails)

abbrev join_words : List String → String
join_words [] = ""
join_words (w ∷ []) = w
join_words (w ∷ v ∷ ws) = str_append w (str_append " " (join_words (v ∷ ws)))

-- `split` is `trim().split(/\s+/)`
module _ (split : String → List String) where
  abbrev github_profile : GithubProfile → Option ProfileEmail → Validated
  github_profile p none = Validated.invalid "auth.errors.github_email_not_verified"
  github_profile p (some e) =
      let words = split (get_or (or_else p.display_name p.username) "") in
      if not e.verified
      then Validated.invalid "auth.errors.github_email_not_verified"
      else Validated.valid (record {
        provider_id = p.id;
        email = e.value;
        email_verified = true;
        first_name = get_or (first words) "";
        last_name = join_words (drop 1 words);
        avatar = first p.photos;
      })

  unfoldable pub validate_github : GithubProfile → Validated
  validate_github p = github_profile p (primary_email p.emails)
