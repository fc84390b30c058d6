-- ===== src/Session/Token.antt =====
-- The claims of a session's token (schemas/login.py, core/security.py).
use skyline_apiserver_extens.Common.{String, Option, none, some, ◌==◌, if◌then◌else◌}
use skyline_apiserver_extens.Common.Int.{ℤ}
use skyline_apiserver_extens.Runtime.{num, truthy, other, Result, ok, err, ◌>>=◌}
use skyline_apiserver_extens.Profile.{Profile, User}
use skyline_apiserver_extens.Keystone.{TokenData, UserData}

-- `Payload` of schemas/login.py
pub record Payload : Type 0 where
  pub keystone_token : String
  pub region : String
  pub exp : ℤ
  pub uuid : String

-- what `jwt.decode` finds in a token
pub record Claims : Type 0 where
  pub keystone_token : Option String
  pub region : Option String
  pub exp : Option ℤ
  pub uuid : Option String

-- `claims[key]`
abbrev pub required {ℓ} : {A : Type ℓ} → Option A → Result A
required none = err (other "KeyError")
required (some a) = ok a

-- an attribute of the `SimpleNamespace` of a user
abbrev pub attribute : Option String → Result String
attribute none = err (other "AttributeError")
attribute (some a) = ok a

abbrev pub payload_of : Claims → Result Payload
payload_of c = do
  keystone_token ← required c.keystone_token
  region ← required c.region
  exp ← required c.exp
  uuid ← required c.uuid
  ok (record { keystone_token = keystone_token; region = region; exp = exp; uuid = uuid })

-- `toPayLoad`
abbrev pub to_payload : Profile → Payload
to_payload p = record {
  keystone_token = p.keystone_token;
  region = p.region;
  exp = p.exp;
  uuid = p.uuid;
}

-- `token_data["token"]["user"]`, as `generate_profile` replaces it
abbrev pub profile_user : TokenData → UserData → Result User
profile_user info user = do
  id ← attribute user.id
  name ← attribute user.name
  ok (record { id = id; name = name; domain = info.user_domain; email = user.email })

-- `exp or now`; 0 is false
abbrev pub exp_or : Option ℤ → ℤ → ℤ
exp_or (some e) now = if truthy (num e) then e else now
exp_or none now = now

abbrev pub text_or : Option String → String → String
text_or none b = b
text_or (some a) b = if a == "" then b else a
