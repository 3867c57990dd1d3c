-- ===== src/Tests/Encodings.antt =====
-- Concrete encodings of the files and the tokens, and what the theorems ask of them.
use cockatiel_engine_rs.Shared.{
  ℕ, String, ◌≡◌, refl, inl, Bool, true, false, Option, none, some, List, nat_beq, if◌then◌else◌,
  eq_refl, ◌==◌, is_some, or_default, map_or, string_eq,
}
use cockatiel_engine_rs.Shared.Int.{ℤ, pos, negsuc}
use cockatiel_engine_rs.Tests.Codec.{Codec, nat_codec, text_codec, mapped, both, list_codec}
use cockatiel_engine_rs.Shared.Json.{Value, Object}
use cockatiel_engine_rs.Queries.Schedule.Restart.{ReadsBack}
use cockatiel_engine_rs.Connection.Files.{Json, IsFaithful}
use cockatiel_engine_rs.Connection.Tokens.{Jwt, TokenClaims}
use cockatiel_engine_rs.Connection.Tokens.Laws.{IsLawful}
use cockatiel_engine_rs.Connection.Registry.{RegisteredModule}
use cockatiel_engine_rs.Connection.Placement.{Config, ModuleEntry}

flag_codec : Codec Bool
flag_codec = mapped to from same nat_codec
  where
    to : Bool → ℕ
    to true = 1
    to false = 0

    from : ℕ → Bool
    from n = nat_beq n 1

    same : (b : Bool) → from (to b) ≡ b
    same true = refl
    same false = refl

int_codec : Codec ℤ
int_codec = mapped to from same (both flag_codec nat_codec)
  where
    to : ℤ → Bool × ℕ
    to (pos n) = (true, n)
    to (negsuc n) = (false, n)

    from : Bool × ℕ → ℤ
    from (true, n) = pos n
    from (false, n) = negsuc n

    same : (i : ℤ) → from (to i) ≡ i
    same (pos n) = refl
    same (negsuc n) = refl

module_codec : Codec RegisteredModule
module_codec =
    mapped to from (λ m. refl)
      (both text_codec
        (both text_codec (both text_codec (both int_codec (both flag_codec text_codec)))))
  where
    to : RegisteredModule → String × (String × (String × (ℤ × (Bool × String))))
    to m = (m.name, (m.instance_uuid7, (m.position, (m.priority, (m.auto_auth, m.auth_token)))))

    from : String × (String × (String × (ℤ × (Bool × String)))) → RegisteredModule
    from (n, (u, (p, (i, (b, t))))) = record {
      name = n;
      instance_uuid7 = u;
      position = p;
      priority = i;
      auto_auth = b;
      auth_token = t;
    }

entry_codec : Codec ModuleEntry
entry_codec = mapped to from (λ e. refl) (both text_codec int_codec)
  where
    to : ModuleEntry → String × ℤ
    to e = (e.name, e.priority)

    from : String × ℤ → ModuleEntry
    from (n, i) = record { name = n; priority = i }

config_codec : Codec Config
config_codec =
    mapped to from (λ c. refl)
      (both (list_codec entry_codec) (
        both (list_codec entry_codec) (
          both (list_codec entry_codec)
            (both (list_codec entry_codec) (list_codec (both text_codec text_codec))))))
  where
    Lists : Type 0
    Lists =
        List ModuleEntry
        × (List ModuleEntry × (List ModuleEntry × (List ModuleEntry × List (String × String))))

    to : Config → Lists
    to c = (
      c.inputs,
      (c.preprocess_modules, (c.inprocess_modules, (c.postprocess_modules, c.other_settings))),
    )

    from : Lists → Config
    from (a, (b, (c, (d, e)))) = record {
      inputs = a;
      preprocess_modules = b;
      inprocess_modules = c;
      postprocess_modules = d;
      other_settings = e;
    }

claims_codec : Codec TokenClaims
claims_codec =
    mapped to from (λ c. refl) (both text_codec (both text_codec (both nat_codec nat_codec)))
  where
    to : TokenClaims → String × (String × (ℕ × ℕ))
    to c = (c.sub, (c.name, (c.iat, c.exp)))

    from : String × (String × (ℕ × ℕ)) → TokenClaims
    from (s, (n, (i, e))) = record { sub = s; name = n; iat = i; exp = e }

-- A tag, and the number or the text that it goes with.
value_codec : Codec Value
value_codec = mapped to from same (both nat_codec (both int_codec text_codec))
  where
    to : Value → ℕ × (ℤ × String)
    to Value.null = (0, (pos 0, ""))
    to Value.compound = (1, (pos 0, ""))
    to (Value.flag true) = (2, (pos 1, ""))
    to (Value.flag false) = (2, (pos 0, ""))
    to (Value.number i) = (3, (i, ""))
    to (Value.text t) = (4, (pos 0, t))

    from : ℕ × (ℤ × String) → Value
    from (n, (i, t)) =
        if nat_beq n 0
        then Value.null
        else if nat_beq n 1
        then Value.compound
        else if nat_beq n 2
        then elim i [ pos m ↦ Value.flag (nat_beq m 1) | negsuc m ↦ Value.flag false ]
        else if nat_beq n 3
        then Value.number i
        else Value.text t

    same : (v : Value) → from (to v) ≡ v
    same Value.null = refl
    same Value.compound = refl
    same (Value.flag true) = refl
    same (Value.flag false) = refl
    same (Value.number i) = refl
    same (Value.text t) = refl

-- The file that holds one value.
json_of : {A : Type 0} → Codec A → Json A
json_of c = record {
  to_text = λ a. some (c.put a "");
  from_text = λ t. map_or (c.get t) none (λ p. some p.0);
}

json_of-IsFaithful : {A : Type 0} (c : Codec A) → IsFaithful (json_of c)
unfolding json_of
json_of-IsFaithful c a = rw (c.get-put a "") refl

pub modules_json : Json (List RegisteredModule)
modules_json = json_of (list_codec module_codec)

pub modules_json-IsFaithful : IsFaithful modules_json
unfolding modules_json
modules_json-IsFaithful = json_of-IsFaithful (list_codec module_codec)

pub settings_json : Json Config
settings_json = json_of config_codec

pub settings_json-IsFaithful : IsFaithful settings_json
unfolding settings_json
settings_json-IsFaithful = json_of-IsFaithful config_codec

pub object_json : Json Object
object_json = json_of (list_codec (both text_codec value_codec))

pub object_json-ReadsBack : ReadsBack object_json
unfolding object_json
object_json-ReadsBack o d =
    (o, json_of-IsFaithful (list_codec (both text_codec value_codec)) o, λ k. refl)

pub names_json : Json (List String)
names_json = json_of (list_codec text_codec)

-- Tokens that hold the secret and the claims: not signed, but read back with that secret only.
signed : Codec (String × TokenClaims)
signed = both text_codec claims_codec

abbrev checked : String → Option ((String × TokenClaims) × String) → Option TokenClaims
checked secret none = none
checked secret (some ((s, c), r)) = if s == secret then some c else none

pub plain_jwt : Jwt
plain_jwt = record {
  encode = λ secret c. some (signed.put (secret, c) "");
  decode = λ secret now t. checked secret (signed.get t);
}

plain_jwt-read :
    (secret : String) (now : ℕ) (c : TokenClaims)
    → plain_jwt.decode secret now (or_default (plain_jwt.encode secret c) "") ≡ some c
unfolding plain_jwt
plain_jwt-read secret now c = rw (signed.get-put (secret, c) "") (rw (eq_refl secret) refl)

plain_jwt-encodes : (secret : String) (c : TokenClaims) → is_some (plain_jwt.encode secret c) ≡ true
unfolding plain_jwt
plain_jwt-encodes secret c = refl

pub plain_jwt-IsLawful : IsLawful plain_jwt
plain_jwt-IsLawful = record {
  encodes = λ secret c. plain_jwt-encodes secret c;
  fresh = λ secret now c h. plain_jwt-read secret now c;
  stale = λ secret now c h. inl (plain_jwt-read secret now c);
}
