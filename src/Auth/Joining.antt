-- ===== src/Auth/Joining.antt =====
-- From the registration of an account to its first login, over `register`, `verifyEmail` and `login` of
-- server/src/modules/auth/auth.service.ts.
use bid_battle.Prelude.{find_where_narrows}
use bid_battle.Mail.{send_email_verification_email}
use bid_battle.Users.Tokens.{
  spent, save_refresh_token, generate_token, mark_token_as_used, new_token, verify_token,
}
use bid_battle.Users.Profile.{
  save_preferences, create_default_preferences, default_preferences,
  find_one_with_password_by_email, save_new_user, update_by, find_one_by,
}
use bid_battle.Auth.Sessions.{
  session_user, AuthSession, generate_refresh_token, generate_access_token, generate_auth_tokens,
  open_session, record_login, validate_user, login,
}
use bid_battle.Prelude.{update_where, find_where}
use bid_battle.Platform.Accounts.{save_token, is_live, save_preferences_row, Accounts}
use bid_battle.Auth.Registration.{
  send_verification_email, registered, register, verify_email, Register,
}
use bid_battle.Prelude.{
  refl, arith, ◌==◌, some, [], none, ◌≤◌, ◌≡◌, List, ◌*◌, ◌+◌, suc, true, ◌∷◌, ℕ, String,
}
use bid_battle.Entities.{UserTokenType, User, UserToken, Language}
use bid_battle.Auth.Credentials.{Credentials}
use bid_battle.Platform.Effects.{Outcome, World, request, Platform}

module _ (P : Platform) (c : Credentials) (lang : Language) (salt random : String)
    (dto : Register) where
  open P.database.account_tables use {
    accounts, put_accounts, same_text, same_text_refl, accounts-put,
  }

  abbrev newcomer : ℕ → User
  newcomer id = record (registered dto (c.hash_password dto.password salt)) { id = id }

  abbrev confirmed : ℕ → User
  confirmed id = record (newcomer id) { is_email_verified = true }

  abbrev enrolled : Accounts → Accounts
  enrolled t = record t {
    users = newcomer t.next_user_id ∷ t.users;
    next_user_id = suc t.next_user_id;
  }

  abbrev preferring : ℕ → Accounts → Accounts
  preferring id t = record t {
    preferences = save_preferences_row (default_preferences id) t.preferences;
  }

  abbrev ticket : ℕ → ℕ → ℕ → UserToken
  ticket id user_id now =
      record (new_token random UserTokenType.email_verification user_id
        (now + c.email_verification_expires_in_min * 60000)) { id = id }

  abbrev ticketed : ℕ → ℕ → Accounts → Accounts
  ticketed user_id now t = record t {
    tokens = ticket t.next_token_id user_id now ∷ t.tokens;
    next_token_id = suc t.next_token_id;
  }

  abbrev joined : ℕ → Accounts → Accounts
  joined now t = ticketed t.next_user_id now (preferring t.next_user_id (enrolled t))

  register_healthy :
      (w : World P)
      → find_where (λ u. same_text u.email dto.email) (accounts w.rows).users ≡ none
      → w.faults ≡ []
      → let (r, w') = register P c lang salt random dto w in
        (r ≡ Outcome.ok tt)
        × (accounts w'.rows ≡ joined w.now (accounts w.rows))
        × (w'.faults ≡ [])
        × (w'.now ≡ w.now)
  unfolding register find_one_by save_new_user create_default_preferences save_preferences
      send_verification_email generate_token send_email_verification_email request
  register_healthy w free f =
      let t = accounts w.rows in
      let id = t.next_user_id in
      let rows1 = put_accounts (enrolled t) w.rows in
      let rows2 = put_accounts (preferring id (enrolled t)) rows1 in
      let first = accounts-put (enrolled t) w.rows in
      let second = accounts-put (preferring id (enrolled t)) rows1 in
      let third = accounts-put (joined w.now t) rows2 in
      let unknown = find_where_narrows is_live (λ u. same_text u.email dto.email) t.users free in
      ground (arith, first, second, third, unknown, free, f)

  verify_email_healthy :
      (v : World P) (user_id id : ℕ) (us : List User) (ks : List UserToken)
      → (accounts v.rows).users ≡ newcomer user_id ∷ us
      → (now : ℕ) → (accounts v.rows).tokens ≡ ticket id user_id now ∷ ks
      → v.now ≤ now + c.email_verification_expires_in_min * 60000
      → v.faults ≡ []
      → let (r, v') = verify_email P c random v in
        (r ≡ Outcome.ok tt)
        × ((accounts v'.rows).users
            ≡ confirmed user_id
              ∷ update_where (λ u. u.id == user_id) (λ u. record u { is_email_verified = true }) us)
        × (v'.faults ≡ [])
  unfolding verify_email verify_token update_by mark_token_as_used request
  verify_email_healthy v user_id id us ks users now tokens early f =
      let t = accounts v.rows in
      let t' : Accounts = record t {
        users =
            update_where (λ u. u.id == user_id) (λ u. record u { is_email_verified = true })
              t.users;
      } in
      let rows' = put_accounts t' v.rows in
      let first = accounts-put t' v.rows in
      let second =
        accounts-put
          (record t' { tokens = save_token (spent v.now (ticket id user_id now)) t'.tokens })
          rows' in
      ground (arith, first, second, same_text_refl random, users, tokens, f)

  login_healthy :
      (v : World P) (user_id life : ℕ) (us : List User)
      → (accounts v.rows).users ≡ confirmed user_id ∷ us
      → v.faults ≡ []
      → c.refresh_token_life ≡ some life
      → (s : AuthSession) × ((login P c dto.email dto.password v).0 ≡ Outcome.ok s)
        × (s.user.email ≡ dto.email)
  unfolding login validate_user find_one_with_password_by_email record_login update_by open_session
      generate_auth_tokens generate_access_token generate_refresh_token save_refresh_token request
  login_healthy v user_id life us users f lasts = (
    record {
      access_token = c.sign_access user_id dto.email v.now;
      refresh_token = c.sign_refresh user_id dto.email v.now;
      user = session_user (confirmed user_id);
    },
    ground (arith, users, f, lasts, same_text_refl dto.email, c.compare-hash dto.password salt),
    refl,
  )

  -- Who registers by an email that no row has, and opens the link of the mail before it expires, can
  -- then log in with his password: all three requests succeed while no service fails.
  pub registered_logs_in :
      (w : World P) (later life : ℕ)
      → find_where (λ u. same_text u.email dto.email) (accounts w.rows).users ≡ none
      → w.faults ≡ []
      → c.refresh_token_life ≡ some life
      → later ≤ w.now + c.email_verification_expires_in_min * 60000
      → let (r1, w1) = register P c lang salt random dto w in
        let (r2, w2) = verify_email P c random (record w1 { now = later }) in
        (r1 ≡ Outcome.ok tt)
        × (r2 ≡ Outcome.ok tt)
        × (s : AuthSession) × ((login P c dto.email dto.password w2).0 ≡ Outcome.ok s)
        × (s.user.email ≡ dto.email)
  registered_logs_in w later life free f lasts early =
      let t = accounts w.rows in
      let w1 = (register P c lang salt random dto w).1 in
      let v = record w1 { now = later } in
      let w2 = (verify_email P c random v).1 in
      let one = register_healthy w free f in
      let two =
        verify_email_healthy v t.next_user_id t.next_token_id t.users t.tokens (ground (arith, one))
          w.now (ground (arith, one)) early (ground (arith, one)) in
      let three =
        login_healthy w2 t.next_user_id life
          (update_where (λ u. u.id == t.next_user_id) (λ u. record u { is_email_verified = true })
            t.users)
          two.1 two.2 lasts in
      (one.0, two.0, three.0, three.1, three.2)
