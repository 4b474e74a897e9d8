-- ===== src/Bid/Gateway/Revalidation.antt =====
-- How the re-validation in `handlePlaceBid` of server/src/modules/bid/bid.gateway.ts ends.

use bid_battle.Bid.Gateway.{revalidated}
use bid_battle.Auth.WsGuard.{
  revalidate_token, revalidate_socket, set_user, is_outdated, validate_jwt_user, accept_payload,
}
use bid_battle.Entities.{User}
use bid_battle.Platform.Sockets.{extract_token, AuthJwt}
use bid_battle.Platform.Effects.{Outcome, Exception, advance, request, World, Platform}
use bid_battle.Prelude.{
  refl, ◌⊎◌, inr, inl, Option-cases, false, some, String, none, arith, Option, ℕ, ◌≡◌,
}

module _ (P : Platform) (verify : String → ℕ → Option AuthJwt) where
  open P.database use {find_user}

  -- The client's token is valid now, and names an account whose password is not newer.
  pub record IsAuthentic (payload : AuthJwt) (w : World P) : Type 0 where
    pub token : String
    pub account : User
    pub presented : extract_token w.client.authorization ≡ some token
    pub valid : verify token w.now ≡ some payload
    pub known : find_user payload.sub w.rows ≡ some account
    pub current : is_outdated payload account ≡ false

  accept_payload_ok :
      (payload : AuthJwt) (w : World P) {r : AuthJwt} {w' : World P}
      → accept_payload P verify (some payload) w ≡ (Outcome.ok r, w')
      → (r ≡ payload)
        × ((account : User) × (find_user payload.sub w.rows ≡ some account)
            × (is_outdated payload account ≡ false))
        × (w' ≡ record (advance w) { client = set_user (some payload) w.client })
  unfolding accept_payload validate_jwt_user request
  accept_payload_ok payload w h = elim (Option-cases (find_user payload.sub w.rows)) [
    | inl missing ↦ ground arith
    | inr (account, found) ↦ (ground arith, (account, found, ground arith), ground arith)
  ]

  accept_payload_quiet :
      (payload : AuthJwt) (w : World P) {e : Exception} {w' : World P}
      → accept_payload P verify (some payload) w ≡ (Outcome.throws e, w')
      → (w'.sent ≡ w.sent) × (w'.client ≡ w.client)
  unfolding accept_payload validate_jwt_user request
  accept_payload_quiet payload w h = elim (Option-cases (find_user payload.sub w.rows)) [
    | inl missing ↦ ground arith
    | inr (account, found) ↦ ground arith
  ]

  -- How the re-validation ends.
  abbrev pub Revalidation : World P → Type 0
  Revalidation w =
      let (r, w') = revalidated P verify w in
      ((r ≡ Outcome.ok none) × (w'.sent ≡ w.sent) × (w'.client.id ≡ w.client.id))
      ⊎ ((payload : AuthJwt) × (r ≡ Outcome.ok (some payload))
          × IsAuthentic payload w
          × (w' ≡ record (advance w) { client = set_user (some payload) w.client }))

  no_token : (w : World P) → extract_token w.client.authorization ≡ none → Revalidation w
  unfolding revalidated revalidate_socket revalidate_token
  no_token w missing = inl (ground arith)

  bad_token :
      (w : World P) (token : String)
      → extract_token w.client.authorization ≡ some token
      → verify token w.now ≡ none
      → Revalidation w
  unfolding revalidated revalidate_socket revalidate_token
  bad_token w token presented invalid = inl (ground arith)

  good_token :
      (w : World P) (token : String) (payload : AuthJwt)
      → extract_token w.client.authorization ≡ some token
      → verify token w.now ≡ some payload
      → (x : Outcome AuthJwt × World P) → accept_payload P verify (some payload) w ≡ x
      → Revalidation w
  unfolding revalidated revalidate_socket revalidate_token
  good_token w token payload presented valid (Outcome.ok r, w') e =
      let facts = accept_payload_ok payload w e in
      inr (
        payload,
        ground arith,
        record {
          token = token;
          account = facts.1.0;
          presented = presented;
          valid = valid;
          known = facts.1.1;
          current = facts.1.2;
        },
        ground arith,
      )
  good_token w token payload presented valid (Outcome.throws e', w') e =
      inl (ground (arith, accept_payload_quiet payload w e))

  pub revalidated_cases : (w : World P) → Revalidation w
  revalidated_cases w = elim (Option-cases (extract_token w.client.authorization)) [
    | inl missing ↦ no_token w missing
    | inr (token, presented) ↦ elim (Option-cases (verify token w.now)) [
      | inl invalid ↦ bad_token w token presented invalid
      | inr (payload, valid) ↦
          good_token w token payload presented valid (accept_payload P verify (some payload) w) refl
    ]
  ]
