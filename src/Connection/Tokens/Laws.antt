-- ===== src/Connection/Tokens/Laws.antt =====
-- What a token of src/auth.rs is good for.
use cockatiel_engine_rs.Shared.{
  ℕ, ◌+◌, ◌≤◌, ◌<◌, String, ◌≡◌, refl, ◌⊎◌, inl, inr, true, ◌&&◌, none, some, arith, ltb, ltb→lt,
  Bool-cases, ◌==◌, is_some, or_default, string_eq,
}
use cockatiel_engine_rs.Connection.Tokens.{
  Jwt, TokenClaims, verify_token, generate_auth_token, token_ttl_secs,
}

-- What the code relies on of `jsonwebtoken`: a token can be issued, it is read back with the secret it was
-- issued with until it expires, and afterwards it is read back or, past the leeway, refused.
pub record IsLawful (jwt : Jwt) : Type 0 where
  pub encodes : (secret : String) (c : TokenClaims) → is_some (jwt.encode secret c) ≡ true
  pub fresh :
      (secret : String) (now : ℕ) (c : TokenClaims)
      → now < c.exp
      → jwt.decode secret now (or_default (jwt.encode secret c) "") ≡ some c
  pub stale :
      (secret : String) (now : ℕ) (c : TokenClaims)
      → c.exp ≤ now
      → (jwt.decode secret now (or_default (jwt.encode secret c) "") ≡ some c)
        ⊎ (jwt.decode secret now (or_default (jwt.encode secret c) "") ≡ none)

module _ (jwt : Jwt) (lawful : IsLawful jwt) (secret : String) where
  -- A token that was issued at `issued` to an instance under a name is accepted at `now` exactly for that
  -- instance under that name, and exactly until thirty days have passed.
  pub verify_token-generate_auth_token :
      (issued now : ℕ) (u name v claimed_name : String)
      → verify_token jwt secret now v (generate_auth_token jwt secret issued u name) claimed_name
        ≡ (u == v && ltb now (issued + token_ttl_secs) && name == claimed_name)
  unfolding verify_token generate_auth_token
  verify_token-generate_auth_token issued now u name v claimed_name =
      elim (Bool-cases (ltb now (issued + token_ttl_secs))) [
        | inl early ↦
            rw
              (lawful.fresh secret now
                (record { sub = u; name = name; iat = issued; exp = issued + token_ttl_secs })
                (ltb→lt _ _ early))
              refl
        | inr late ↦
            elim (lawful.stale secret now
              (record { sub = u; name = name; iat = issued; exp = issued + token_ttl_secs })
              (ground arith)) [
                | inl read ↦ rw read refl
                | inr refused ↦ rw (refused, late) (ground arith)
              ]
      ]
