-- ===== src/Mail.antt =====
-- server/src/shared/mail/mail.service.ts, which adds mails to their queue. `translate` is
-- `I18nService.t` of a key in a language.
use bid_battle.Prelude.{ℕ, String, Option}
use bid_battle.Entities.{Language}
use bid_battle.Platform.Queue.{Mail, MailContext}
use bid_battle.Platform.Effects.{Platform, Eff, change_jobs}
use Prim.Native.String.{◌++◌ as str_append}

pub record MailConfig : Type 0 where
  pub app_name : String
  pub app_url : String
  pub translate : String → Language → String
  -- a number in a template literal
  pub show : ℕ → String

-- The value of the enum.
abbrev lang_code : Language → String
lang_code Language.en = "en"
lang_code Language.pl = "pl"

module _ (P : Platform) (m : MailConfig) where
  open m use {app_name, app_url, translate, show}

  abbrev pub critical_mail : String → String → String → Language → MailContext → Mail
  critical_mail subject template email lang context = record {
    to = email;
    subject = translate subject lang;
    template = str_append "./" (str_append (lang_code lang) (str_append "/" template));
    app_name = app_name;
    app_url = app_url;
    rights = translate "mail.footer.rights" lang;
    context = context;
  }

  abbrev send_critical_email : Mail → Eff P (Unit {0})
  send_critical_email mail = change_jobs (P.queue.add_mail mail)

  unfoldable pub send_test_email : String → Language → Eff P (Unit {0})
  send_test_email email lang =
      send_critical_email (critical_mail "mail.subjects.test" "test" email lang MailContext.test)

  unfoldable pub send_forgot_password_email :
      String → Language → String → ℕ → String → Eff P (Unit {0})
  send_forgot_password_email email lang user_name expires_in_min token = send_critical_email (
      critical_mail "mail.subjects.forgot-password" "forgot-password" email lang (
        MailContext.forgot_password user_name
          (str_append app_url (str_append "/auth/reset-password?token=" token)) expires_in_min))

  unfoldable pub send_password_changed_email : String → Language → String → Eff P (Unit {0})
  send_password_changed_email email lang user_name = send_critical_email (
      critical_mail "mail.subjects.reset-password" "reset-password" email lang
        (MailContext.password_changed user_name))

  abbrev auction_url : ℕ → String
  auction_url auction = str_append app_url (str_append "/auctions/" (show auction))

  unfoldable pub send_auction_winner_email :
      String → Language → String → String → ℕ → ℕ → Eff P (Unit {0})
  send_auction_winner_email email lang user_name title price auction = send_critical_email (
      critical_mail "mail.subjects.auction-winner" "auction-winner" email lang
        (MailContext.auction_winner user_name title price (auction_url auction)))

  unfoldable pub send_auction_owner_email :
      String → Language → String → String → ℕ → ℕ → Option String → Eff P (Unit {0})
  send_auction_owner_email email lang user_name title price auction winner_name =
      send_critical_email (
        critical_mail "mail.subjects.auction-owner" "auction-owner" email lang
          (MailContext.auction_owner user_name title price (auction_url auction) winner_name))

  unfoldable pub send_email_verification_email :
      String → Language → String → ℕ → String → Eff P (Unit {0})
  send_email_verification_email email lang user_name expires_in_min token = send_critical_email (
      critical_mail "mail.subjects.verify-email" "verify-email" email lang (
        MailContext.verify_email user_name
          (str_append app_url (str_append "/auth/verify-email?token=" token)) expires_in_min))
