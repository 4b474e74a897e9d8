-- ===== src/Client/Pages/LockedOut.antt =====
-- client/src/app/features/auth/pages/login/login.ts beside the password rules of
-- server/src/modules/auth/dto.
use bid_battle.Client.Forms.{
  is_bad_email, ahead, change_rule, is_bad_password, is_digit, is_lower, is_special, is_strong,
  is_upper, min_password, to_end, touch,
}
use bid_battle.Client.Forms.Passwords.{strong-passes}
use bid_battle.Client.Pages.{LoginPage, is_invalid_login, submit_login}
use bid_battle.Prelude.{inr, inl, Bool-cases, ◌≡◌, arith, false, leb, refl, true, Bool, String}
use Prim.Native.String.{count}
use text.Mathlib.TextEquality.{eq_iff}

weak : (s : String) → ahead is_special s ≡ false → is_strong s ≡ false
unfolding is_strong
weak s plain = ground (arith, plain)

bad :
    (page : LoginPage)
    → is_strong page.password.value ≡ false
    → is_bad_password page.password ≡ true
bad page h = ground (arith, h)

invalid_password :
    (is_email : String → Bool) (page : LoginPage)
    → is_bad_password page.password ≡ true
    → is_invalid_login is_email page ≡ true
invalid_password is_email page h = elim (Bool-cases (is_bad_email is_email page.email)) [
  | inl also ↦ rw also refl
  | inr fine ↦ rw (fine, h) refl
]

-- A password in one line of at least eight characters with both kinds of letters and a digit, but
-- with nothing else, may be set by a change or a reset of the password, and then the login page never
-- sends it: its submission only marks the controls as touched.
pub plain_password_locks_out :
    (is_email : String → Bool) (page : LoginPage)
    → let password = page.password.value in
      leb min_password (count password) ≡ true
      → ahead is_lower password ≡ true
      → ahead is_upper password ≡ true
      → ahead is_digit password ≡ true
      → ahead is_special password ≡ false
      → to_end password ≡ true
      → (change_rule password password ≡ true)
        × (submit_login is_email page
            ≡ record page { email = touch page.email; password = touch page.password })
unfolding change_rule submit_login
plain_password_locks_out is_email page long lower upper digit plain ends =
    let taken = strong-passes page.password.value lower upper digit ends in
    let same = (eq_iff page.password.value page.password.value).1 refl in
    let invalid = invalid_password is_email page (bad page (weak page.password.value plain)) in
    (rw (long, taken, same) refl, rw invalid refl)
