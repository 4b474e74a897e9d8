-- ===== src/Auctions/EndProcessor/Notifications.antt =====
-- The mails that server/src/modules/auctions/auctions-end.processor.ts sends off at the end of
-- `process`, without awaiting them.
use bid_battle.Prelude.{if◌then◌else◌, none, some, ◌==◌, ℕ, Option}
use bid_battle.Entities.{UserPreferences, User, Auction}
use bid_battle.Platform.Effects.{when, pure, Outcome, try_catch, Eff, Platform, ◌>>=◌, ◌>>◌}
use bid_battle.Mail.{MailConfig, send_auction_owner_email, send_auction_winner_email}
use bid_battle.Users.Profile.{find_one_by, find_or_create_by_user_id}
use bid_battle.Auth.Passwords.{concat_name}
use mathlib.Core.Option

-- `Promise.all([m, k])`: both are sent, and the first exception is thrown.
abbrev pub both_values : {P : Platform} {A B : Type 0} → Eff P A → Eff P B → Eff P (A × B)
both_values m k w =
    let (r, w') = m w in
    let (r', w'') = k w' in
    elim r [
      | Outcome.throws e ↦ (Outcome.throws e, w'')
      | Outcome.ok a ↦ elim r' [
        | Outcome.throws e ↦ (Outcome.throws e, w'')
        | Outcome.ok b ↦ (Outcome.ok (a, b), w'')
      ]
    ]

module _ (P : Platform) (mail : MailConfig) where
  -- no id is 0
  abbrev find_if : Option ℕ → Eff P (Option User)
  find_if none = pure none
  find_if (some id) = if id == 0 then pure none else find_one_by P (λ u. u.id == id)

  abbrev preferences_of : Option User → Eff P (Option UserPreferences)
  preferences_of none = pure none
  preferences_of (some u) = do p ← find_or_create_by_user_id P u.id; pure (some p)

  unfoldable pub notify_auction_owner :
      Auction → ℕ → ℕ → User → UserPreferences → Option User → Eff P (Unit {0})
  notify_auction_owner a id price owner prefs winner = when prefs.notify_on_auction_end (
      send_auction_owner_email P mail owner.email prefs.lang (concat_name owner) a.title price id
        (Option.map concat_name winner))

  unfoldable pub notify_auction_winner : Auction → ℕ → ℕ → User → UserPreferences → Eff P (Unit {0})
  notify_auction_winner a id price winner prefs = when prefs.notify_on_auction_end (
      send_auction_winner_email P mail winner.email prefs.lang (concat_name winner) a.title price
        id)

  -- `Promise.allSettled`: an exception of one is logged
  abbrev settled : Eff P (Unit {0}) → Eff P (Unit {0})
  settled m = try_catch m (λ _. pure tt)

  abbrev tell_owner :
      Auction → ℕ → ℕ → Option User → Option User → Option UserPreferences → Eff P (Unit {0})
  tell_owner a id price winner (some owner) (some prefs) =
      settled (notify_auction_owner a id price owner prefs winner)
  tell_owner a id price winner _ _ = pure tt

  abbrev tell_winner : Auction → ℕ → ℕ → Option User → Option UserPreferences → Eff P (Unit {0})
  tell_winner a id price (some winner) (some prefs) =
      settled (notify_auction_winner a id price winner prefs)
  tell_winner a id price _ _ = pure tt

  unfoldable pub send_end_notification_emails : Auction → ℕ → ℕ → Option ℕ → Eff P (Unit {0})
  send_end_notification_emails a id price winner_id = do
    found ← both_values (find_one_by P (λ u. u.id == a.owner_id)) (find_if winner_id)
    prefs ← both_values (preferences_of found.0) (preferences_of found.1)
    tell_owner a id price found.1 found.0 prefs.0
    tell_winner a id price found.1 prefs.1
