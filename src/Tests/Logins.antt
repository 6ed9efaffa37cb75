-- ===== src/Tests/Logins.antt =====
-- An admin's login, and the cookie that it sets. The signature of a payload is the key and the
-- payload, and a number is written in unary.
use Prim.Native.String.{◌++◌}
use Prim.Native.Char.{code}
use ai_model_gateway.Base.{
  trim_space, ℕ, zero, suc, ◌+◌, ◌*◌, ◌≡◌, refl, ap, String, Option, none, some, [], ◌∷◌, ℤ, pos,
  negsuc, ok, err, second, true, false, if◌then◌else◌, ltb, ◌/◌, ◌==◌,
}
use ai_model_gateway.Auth.{
  AuthInfo, Authenticator, Cookie, Request, Crypto, login, authenticate, cookie_max_age, expired,
  invalid_cookie, resolve_token, extract_bearer, dot, colon, cookie_name, sign, new_payload,
}
use ai_model_gateway.Auth.Texts.{Lacks}
use ai_model_gateway.Auth.Cookies.{Decimal, IsRole}
use ai_model_gateway.Auth.Tokens.{authenticate-login, authenticate-Vouched, Vouched}

ones : ℕ → String
ones zero = String.[]
ones (suc n) = String.◌∷◌ "1" (ones n)

count : String → ℕ
count String.[] = zero
count (String.◌∷◌ c s) = suc (count s)

count-ones : (n : ℕ) → count (ones n) ≡ n
unfolding ones count
count-ones zero = refl
count-ones (suc n) = ap suc (count-ones n)

Lacks-ones : (sep n : ℕ) → (49 == sep) ≡ false → Lacks sep (ones n)
unfolding ones
Lacks-ones sep zero h = tt
Lacks-ones sep (suc n) h = (h, Lacks-ones sep n h)

abbrev format_int : ℤ → String
format_int (pos n) = String.◌∷◌ "+" (ones n)
format_int (negsuc n) = String.◌∷◌ "-" (ones n)

abbrev parse_int : String → Option ℤ
parse_int String.[] = none
parse_int (String.◌∷◌ c s) = if code c == 43 then some (pos (count s)) else some (negsuc (count s))

abbrev crypto : Crypto
crypto = record {
  signature = λ key payload. key ++ payload;
  format_int = format_int;
  parse_int = parse_int;
}

parse-format : (n : ℤ) → parse_int (format_int n) ≡ some n
parse-format (pos n) = ap (λ k. some (pos k)) (count-ones n)
parse-format (negsuc n) = ap (λ k. some (negsuc k)) (count-ones n)

Lacks-dot : (n : ℤ) → Lacks (code dot) (format_int n)
Lacks-dot (pos n) = (refl, Lacks-ones (code dot) n refl)
Lacks-dot (negsuc n) = (refl, Lacks-ones (code dot) n refl)

Lacks-colon : (n : ℤ) → Lacks (code colon) (format_int n)
Lacks-colon (pos n) = (refl, Lacks-ones (code colon) n refl)
Lacks-colon (negsuc n) = (refl, Lacks-ones (code colon) n refl)

decimal : Decimal crypto
decimal = record { parse_int-format_int = parse-format; no_dot = Lacks-dot; no_colon = Lacks-colon }

abbrev door : Authenticator
door = record {
  bootstrap_token = "bootstrap";
  cookie_signing_key = "key";
  tokens = record { name = "eve"; token = "look"; role = "reader" } ∷ [];
  cookie_secure = true;
}

abbrev entered : ℕ
entered = 5 * second

abbrev cookie : Cookie
cookie = record {
  name = cookie_name;
  value = sign crypto door (new_payload crypto "viewer" entered);
  path = "/";
  max_age = pos 86_400;
  secure = true;
}

abbrev with_cookie : Request
with_cookie = record { authorization = ""; cookie = some cookie.value }

logged_in : login crypto door "look" entered ≡ ok cookie
unfolding login
logged_in = refl

authenticate-login_example :
    (info : AuthInfo) × (resolve_token door "look" ≡ some info)
    × (authenticate crypto door with_cookie (6 * second) ≡ (
        if ltb (entered / second * second + cookie_max_age) (6 * second)
        then err (invalid_cookie expired)
        else ok (record { name = "cookie-user"; role = info.role })))
unfolding extract_bearer
authenticate-login_example =
    authenticate-login crypto decimal door "look" entered (6 * second) cookie with_cookie logged_in
      refl refl

abbrev with_token : Request
with_token = record { authorization = "BEARER  look"; cookie = none }

abbrev eve : AuthInfo
eve = record { name = "eve"; role = "viewer" }

let_in : authenticate crypto door with_token 0 ≡ ok eve
unfolding authenticate trim_space
let_in = refl

authenticate-Vouched_example : Vouched crypto door with_token 0 eve × IsRole eve.role
authenticate-Vouched_example = authenticate-Vouched crypto door with_token 0 eve let_in
