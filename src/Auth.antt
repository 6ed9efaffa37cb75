-- ===== src/Auth.antt =====
-- internal/infra/auth/cookie.go: the authentication of the admin API by bearer tokens and signed
-- cookies. HMAC-SHA256 with its encoding, strconv and the reading of cookies from a request are
-- parameters; a header is a text of ASCII characters. An instant is its nanoseconds since 1970.
pub mod Texts
pub mod Cookies
pub mod Tokens
pub mod Known
use Prim.Native.String.{◌++◌ as concat}
use Prim.Native.Char.{Char, code}
use ai_model_gateway.Base.{
  ℕ, zero, suc, ◌+◌, ◌*◌, ◌/◌, ◌-◌, String, Bool, true, false, not, ◌&&◌, ◌||◌, Option, none, some,
  List, [], ◌∷◌, ℤ, pos, negsuc, str_eq, ltb, leb, ◌==◌, if◌then◌else◌, Result, ok, err, ◌>>=◌,
  map_err, trim_space, second,
}

pub record AuthInfo : Type 0 where
  pub name : String
  pub role : String

pub record TokenEntry : Type 0 where
  pub name : String
  pub token : String
  pub role : String

pub record Authenticator : Type 0 where
  pub bootstrap_token : String
  pub cookie_signing_key : String
  pub tokens : List TokenEntry
  pub cookie_secure : Bool

-- http.Cookie, always HttpOnly and SameSite strict
pub record Cookie : Type 0 where
  pub name : String
  pub value : String
  pub path : String
  pub max_age : ℤ
  pub secure : Bool

-- the header Authorization and the value of the cookie `aigw`, if there is one
pub record Request : Type 0 where
  pub authorization : String
  pub cookie : Option String

pub data AuthError : Type 0 where
  invalid_token invalid_bearer no_credential malformed signature_mismatch invalid_timestamp :
      AuthError
  expired : AuthError
  invalid_cookie : AuthError → AuthError

abbrev pub cookie_name : String
cookie_name = "aigw"

-- 24 hours
abbrev pub cookie_max_age : ℕ
cookie_max_age = 86_400 * second

abbrev pub role_admin : String
role_admin = "admin"

abbrev pub role_viewer : String
role_viewer = "viewer"

abbrev pub dot : Char
dot = "."

abbrev pub colon : Char
colon = ":"

-- New, SetTokens, SetCookieSecure
pub new : String → String → Authenticator
new bootstrap_token cookie_signing_key = record {
  bootstrap_token = bootstrap_token;
  cookie_signing_key = cookie_signing_key;
  tokens = [];
  cookie_secure = true;
}

pub set_tokens : List TokenEntry → Authenticator → Authenticator
set_tokens tokens a = record a { tokens = tokens }

pub set_cookie_secure : Bool → Authenticator → Authenticator
set_cookie_secure secure a = record a { cookie_secure = secure }

-- every role but admin is viewer
unfoldable pub normalize_role : String → String
normalize_role role =
    if not (str_eq role role_admin) && not (str_eq role role_viewer) then role_viewer else role

unfoldable pub find_token : String → List TokenEntry → Option AuthInfo
unfolding normalize_role
find_token token [] = none
find_token token (t ∷ ts) =
    let rest = find_token token ts in
    if str_eq token t.token
    then some (record { name = t.name; role = normalize_role t.role })
    else rest

-- resolveToken, which is also LoginInfo
unfoldable pub resolve_token : Authenticator → String → Option AuthInfo
unfolding find_token
resolve_token a token =
    if str_eq token a.bootstrap_token
    then some (record { name = "bootstrap"; role = role_admin })
    else find_token token a.tokens

abbrev put_before : Char → Option (String × String) → Option (String × String)
put_before c none = none
put_before c (some (a, b)) = some (String.◌∷◌ c a, b)

-- strings.SplitN(s, sep, 2), for a separator of one character; none for one part
unfoldable pub split_first : ℕ → String → Option (String × String)
split_first sep String.[] = none
split_first sep (String.◌∷◌ c s) =
    let rest : Option (String × String) = put_before c (split_first sep s) in
    if code c == sep then some (String.[], s) else rest

-- what stands before and after strings.LastIndex(s, sep); none where that is negative
unfoldable pub split_last : ℕ → String → Option (String × String)
split_last sep String.[] = none
split_last sep (String.◌∷◌ c s) = elim (split_last sep s) [
  | some (a, b) ↦ some (String.◌∷◌ c a, b)
  | none ↦ if code c == sep then some (String.[], s) else none
]

abbrev lower : ℕ → ℕ
lower c = if leb b'A' c && leb c b'Z' then c + 32 else c

-- after a prefix in whatever case; none where the text has another beginning or nothing more
abbrev after_folded : String → String → Option String
after_folded String.[] String.[] = none
after_folded String.[] (String.◌∷◌ c s) = some (String.◌∷◌ c s)
after_folded (String.◌∷◌ d p) String.[] = none
after_folded (String.◌∷◌ d p) (String.◌∷◌ c s) =
    if lower (code c) == code d then after_folded p s else none

-- extractBearer
unfoldable pub extract_bearer : Request → String
extract_bearer r = elim (after_folded "bearer " r.authorization) [
  | none ↦ ""
  | some token ↦ trim_space token
]

-- time.Since(time.Unix(issued, 0)) > cookieMaxAge, for seconds that time.Unix can hold
unfoldable pub is_expired : ℤ → ℕ → Bool
is_expired (pos issued) now = ltb (issued * second + cookie_max_age) now
is_expired (negsuc n) now = ltb cookie_max_age (now + suc n * second)

pub record Crypto : Type 0 where
  -- base64.RawURLEncoding of the HMAC with a key
  pub signature : String → String → String
  pub format_int : ℤ → String
  pub parse_int : String → Option ℤ

module _ (crypto : Crypto) where
  unfoldable pub new_payload : String → ℕ → String
  new_payload role now = concat role (String.◌∷◌ colon (crypto.format_int (pos (now / second))))

  unfoldable pub sign : Authenticator → String → String
  sign a payload = concat payload (String.◌∷◌ dot (crypto.signature a.cookie_signing_key payload))

  -- the role and the text of the timestamp; a payload without a role is an admin's
  unfoldable pub payload_fields : String → String × String
  unfolding split_last
  payload_fields payload = elim (split_last (code colon) payload) [
    | none ↦ (role_admin, payload)
    | some fields ↦ fields
  ]

  unfoldable pub check_fields : String × String → ℕ → Result AuthError String
  unfolding is_expired normalize_role
  check_fields (role, timestamp) now = elim (crypto.parse_int timestamp) [
    | none ↦ err invalid_timestamp
    | some issued ↦ if is_expired issued now then err expired else ok (normalize_role role)
  ]

  unfoldable pub verify_parts : Authenticator → ℕ → String → String → Result AuthError String
  unfolding payload_fields check_fields
  verify_parts a now payload sig =
      if not (str_eq sig (crypto.signature a.cookie_signing_key payload))
      then err signature_mismatch
      else check_fields (payload_fields payload) now

  unfoldable pub verify : Authenticator → String → ℕ → Result AuthError String
  unfolding split_first verify_parts
  verify a value now = elim (split_first (code dot) value) [
    | none ↦ err malformed
    | some (payload, sig) ↦ verify_parts a now payload sig
  ]

  -- Login: the cookie that it sets, or the error
  unfoldable pub login : Authenticator → String → ℕ → Result AuthError Cookie
  unfolding resolve_token sign new_payload
  login a token now = elim (resolve_token a token) [
    | none ↦ err invalid_token
    | some info ↦ ok (record {
      name = cookie_name;
      value = sign a (new_payload info.role now);
      path = "/";
      max_age = pos 86_400;
      secure = a.cookie_secure;
    })
  ]

  -- Logout
  pub logout : Authenticator → Cookie
  logout a = record {
    name = cookie_name;
    value = "";
    path = "/";
    max_age = negsuc 0;
    secure = a.cookie_secure;
  }

  unfoldable pub authenticate_cookie : Authenticator → Option String → ℕ → Result AuthError AuthInfo
  unfolding verify
  authenticate_cookie a none now = err no_credential
  authenticate_cookie a (some value) now = do
    role ← map_err invalid_cookie (verify a value now)
    ok (record { name = "cookie-user"; role = role })

  unfoldable pub authenticate_bearer : Authenticator → String → Result AuthError AuthInfo
  unfolding resolve_token
  authenticate_bearer a bearer = elim (resolve_token a bearer) [
    | none ↦ err invalid_bearer
    | some info ↦ ok info
  ]

  -- Authenticate: a bearer token decides alone
  unfoldable pub authenticate : Authenticator → Request → ℕ → Result AuthError AuthInfo
  unfolding extract_bearer authenticate_cookie authenticate_bearer
  authenticate a r now =
      if not (str_eq (extract_bearer r) "")
      then authenticate_bearer a (extract_bearer r)
      else authenticate_cookie a r.cookie now
