-- ===== src/Connection/Tokens.antt =====
-- The tokens of src/auth.rs: `verify_token`, `generate_auth_token`, `verify_pin`. The encoding of a
-- token is the crate `jsonwebtoken`, a parameter. Times are seconds since the epoch.
pub mod Laws
use cockatiel_engine_rs.Shared.{
  ℕ, ◌+◌, ◌*◌, String, Bool, false, ◌&&◌, Option, ltb, nat_beq, ◌==◌, or_default, map_or, string_eq,
}
use cockatiel_engine_rs.Shared.Int.{ℤ, to_u32}

pub record TokenClaims : Type 0 where
  pub sub : String
  pub name : String
  pub iat : ℕ
  pub exp : ℕ

-- `decode` is asked at a time, since it looks at the expiry itself.
pub record Jwt : Type 0 where
  pub encode : String → TokenClaims → Option String
  pub decode : String → ℕ → String → Option TokenClaims

abbrev pub token_ttl_secs : ℕ
token_ttl_secs = 30 * 24 * 60 * 60

module _ (jwt : Jwt) (secret : String) where
  unfoldable pub generate_auth_token : ℕ → String → String → String
  generate_auth_token now instance_uuid7 module_name =
      or_default
        (jwt.encode secret (record {
          sub = instance_uuid7;
          name = module_name;
          iat = now;
          exp = now + token_ttl_secs;
        }))
        ""

  unfoldable pub verify_token : ℕ → String → String → String → Bool
  verify_token now instance_uuid7 token expected_name =
      map_or (jwt.decode secret now token) false
        (λ c. c.sub == instance_uuid7 && ltb now c.exp && c.name == expected_name)

unfoldable pub verify_pin : ℤ → ℕ → Bool
verify_pin pin config_pin = nat_beq (to_u32 pin) config_pin
