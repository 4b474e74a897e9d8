-- ===== src/Platform/Accounts/Queries.antt =====
-- The token that a query finds once it is saved.
use bid_battle.Prelude.{find_where-overwrite, ◌==◌, Bool, true, some, List, ◌≡◌, arith}
use bid_battle.Entities.{UserToken}
use bid_battle.Prelude.{find_where}
use bid_battle.Platform.Accounts.{save_token}

pub find_where-save_token :
    (p : UserToken → Bool) (rows : List UserToken) (old new : UserToken)
    → find_where p rows ≡ some old
    → new.id ≡ old.id
    → p new ≡ true
    → find_where p (save_token new rows) ≡ some new
find_where-save_token p rows old new h same fits =
    let over = find_where-overwrite p (λ x. x.id == new.id) rows old new h in ground (arith, over)
