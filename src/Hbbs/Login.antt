-- ===== src/Hbbs/Login.antt =====
-- src/jwt.rs: the token a punch-hole request carries under MUST_LOGIN. The crate `jsonwebtoken` is a
-- parameter: it gives the claims of a token that a secret signed.
use rustdesk_server.Prelude.{
  ℕ, ◌≡◌, Bool, true, false, Option, none, some, arith, ltb, if◌then◌else◌, Option-cases, inl, inr,
}
use rustdesk_server.Prelude.Result.{Result, ok, err, ok_or, ◌>>=◌}
use rustdesk_server.Prelude.Text.{Text, text, is_empty}

-- The struct Claims.
pub record Claims : Type 0 where
  pub user_id : ℕ
  pub exp : ℕ

module _ (decode : Text → Text → Option Claims) where
  -- `now` is the time in seconds since the epoch.
  unfoldable pub verify_token : Text → ℕ → Text → Result Text Claims
  verify_token secret now token = ok_or (decode secret token) (text "Invalid token") >>= λ claims.
      if ltb now claims.exp then ok claims else err (text "Token status invalid or expired")

  -- The answer to a request that is not logged in, if it is refused.
  unfoldable pub login_failure : Bool → Text → ℕ → Text → Option Text
  login_failure must_login secret now token =
      if must_login
      then if is_empty token
        then some (text "Connection failed, please login!")
        else if is_empty secret
        then none
        else elim (verify_token secret now token) [
          | ok claims ↦ none
          | err e ↦ some (text "Token error, please log out and log back in!")
        ]
      else none

  -- Where a login is required and a secret is set, a request that is not refused carries a token that
  -- the secret signed and that has not expired.
  pub login_failure-signed :
      (secret : Text) (now : ℕ) (token : Text)
      → is_empty secret ≡ false
      → login_failure true secret now token ≡ none
      → (c : Claims) × (decode secret token ≡ some c) × (ltb now c.exp ≡ true)
  unfolding login_failure verify_token
  login_failure-signed secret now token s h = elim (Option-cases (decode secret token)) [
    | inl e ↦ ground (arith, e, s, h)
    | inr (c, e) ↦ (c, e, ground (arith, e, s, h))
  ]
