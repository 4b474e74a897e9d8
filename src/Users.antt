-- ===== src/Users.antt =====
-- The services of server/src/modules/users on the tables of accounts.
pub mod Tokens
pub mod Profile
use bid_battle.Platform.Accounts.{Accounts}
use bid_battle.Platform.Effects.{Platform, Eff, request, ask_rows}

module _ {P : Platform} where
  open P.database.account_tables use {accounts, put_accounts}

  abbrev pub ask_accounts : {A : Type 0} → (Accounts → A) → Eff P A
  ask_accounts f = ask_rows λ r. f (accounts r)

  abbrev pub tell_accounts : {A : Type 0} → (Accounts → A × Accounts) → Eff P A
  tell_accounts f =
      request
        λ w. let (a, t) = f (accounts w.rows) in (a, record w { rows = put_accounts t w.rows })

  abbrev pub change_accounts : (Accounts → Accounts) → Eff P (Unit {0})
  change_accounts f = tell_accounts λ t. (tt, f t)
