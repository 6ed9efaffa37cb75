-- ===== src/Auth/Tokens.antt =====
-- Logging in, and what the cookie that it sets is worth.
use Prim.Native.Char.{code}
use text.Mathlib.TextEquality.{eq_iff}
use ai_model_gateway.Base.{
  ◌≢◌, >>=-ok, map_err-ok, ok_injective, ℕ, ◌+◌, ◌*◌, ◌/◌, ◌≡◌, ◌⊎◌, refl, sym, ap, ◌∙◌, arith,
  String, Option, none, some, inl, inr, Bool-cases, Option-cases, if◌then◌else◌, pos, ok, err,
  map_err, str_eq, second, ltb,
}
use mathlib.Core.Path.{subst}
use ai_model_gateway.Auth.{
  AuthInfo, Authenticator, Cookie, Request, Crypto, expired, invalid_cookie, cookie_max_age, dot,
  colon, resolve_token, extract_bearer, is_expired, new_payload, sign, payload_fields, check_fields,
  verify_parts, verify, login, authenticate_cookie, authenticate_bearer, authenticate,
}
use ai_model_gateway.Auth.Texts.{Lacks, Lacks-append, split_first-append, split_last-append}
use ai_model_gateway.Auth.Cookies.{
  IsRole, normalize_role_twice, IsRole-Lacks, resolve_token-IsRole, Decimal, Signed, verify-Signed,
  normalize_role-IsRole,
}
use ai_model_gateway.Auth.Known.{KnownAs, RoleOf-IsRole, resolve_token-KnownAs}

module _ (crypto : Crypto) (decimal : Decimal crypto) where
  payload_fields-new_payload :
      (role : String) (now : ℕ)
      → payload_fields crypto (new_payload crypto role now)
        ≡ (role, crypto.format_int (pos (now / second)))
  unfolding payload_fields new_payload
  payload_fields-new_payload role now = rw (
    payload_fields,
    new_payload,
    split_last-append role (crypto.format_int (pos (now / second))) colon
        (decimal.no_colon (pos (now / second))),
  )

  check_fields-own :
      (role : String) (now t : ℕ)
      → IsRole role
      → check_fields crypto (role, crypto.format_int (pos (now / second))) t
        ≡ (if ltb (now / second * second + cookie_max_age) t then err expired else ok role)
  unfolding check_fields is_expired
  check_fields-own role now t h =
      rw (
        check_fields,
        decimal.parse_int-format_int (pos (now / second)),
        normalize_role_twice role h,
      )

  new_payload-Lacks :
      (role : String) (now : ℕ) → IsRole role → Lacks (code dot) (new_payload crypto role now)
  unfolding new_payload
  new_payload-Lacks role now h =
      Lacks-append (code dot) role (String.◌∷◌ colon (crypto.format_int (pos (now / second))))
        (IsRole-Lacks role h) (refl, decimal.no_dot (pos (now / second)))

  -- a cookie of one's own
  verify-sign :
      (a : Authenticator) (role : String) (now t : ℕ)
      → IsRole role
      → verify crypto a (sign crypto a (new_payload crypto role now)) t
        ≡ (if ltb (now / second * second + cookie_max_age) t then err expired else ok role)
  unfolding verify sign verify_parts
  verify-sign a role now t h =
      let payload : String = new_payload crypto role now in
      let sig : String = crypto.signature a.cookie_signing_key payload in
      rw
        (
          verify,
          sign,
          split_first-append payload sig dot (new_payload-Lacks role now h),
          verify_parts,
          (eq_iff sig sig).1 refl,
        )
        (ap (λ f. check_fields crypto f t) (payload_fields-new_payload role now)
          ∙ check_fields-own role now t h)

  -- A login succeeds only for the bootstrap token or a listed token. The cookie that it sets
  -- authenticates a request without a bearer token with that token's role, until 24 hours after
  -- the second of the login; from then on it is refused as expired.
  pub authenticate-login :
      (a : Authenticator) (token : String) (now t : ℕ) (c : Cookie) (r : Request)
      → login crypto a token now ≡ ok c
      → extract_bearer r ≡ ""
      → r.cookie ≡ some c.value
      → (info : AuthInfo) × (resolve_token a token ≡ some info)
        × (authenticate crypto a r t ≡ (
            if ltb (now / second * second + cookie_max_age) t
            then err (invalid_cookie expired)
            else ok (record { name = "cookie-user"; role = info.role })))
  unfolding login authenticate authenticate_cookie
  authenticate-login a token now t c r h b k = elim (Option-cases (resolve_token a token)) [
    | inl lost ↦ absurd (ground arith)
    | inr (info, found) ↦
        let value : c.value ≡ sign crypto a (new_payload crypto info.role now) = ground arith in
        let verified =
          ap (λ v. verify crypto a v t) value
          ∙ verify-sign a info.role now t (resolve_token-IsRole a token info found) in
        (info, found, rw (authenticate, b, k) (ground (arith, verified)))
  ]

module _ (crypto : Crypto) where
  -- what stands behind an identity
  abbrev pub Vouched : Authenticator → Request → ℕ → AuthInfo → Type 0
  Vouched a r t info =
      ((extract_bearer r ≢ "") × KnownAs a (extract_bearer r) info)
      ⊎ ((extract_bearer r ≡ "")
          × (value : String) × (r.cookie ≡ some value)
          × (info.name ≡ "cookie-user")
          × Signed crypto a value t info.role)

  authenticate_cookie-Vouched :
      (a : Authenticator) (r : Request) (t : ℕ) (info : AuthInfo) (found : Option String)
      → extract_bearer r ≡ ""
      → r.cookie ≡ found
      → authenticate_cookie crypto a found t ≡ ok info
      → Vouched a r t info
  unfolding authenticate_cookie
  authenticate_cookie-Vouched a r t info none b k h = cc h
  authenticate_cookie-Vouched a r t info (some value) b k h =
      let (role, accepted, made) = >>=-ok (map_err invalid_cookie (verify crypto a value t)) _ h in
      let e = ok_injective made in
      inr (
        b,
        value,
        k,
        sym (ap (λ (i : AuthInfo). i.name) e),
        subst (Signed crypto a value t) (ap (λ (i : AuthInfo). i.role) e) (
            verify-Signed crypto a value t role
              (map_err-ok invalid_cookie (verify crypto a value t) accepted)),
      )

  cookie-IsRole :
      (a : Authenticator) (value : String) (t : ℕ) (role : String)
      → Signed crypto a value t role
      → IsRole role
  cookie-IsRole a value t role s =
      subst IsRole (sym s.roled) (normalize_role-IsRole (payload_fields crypto s.payload).0)

  Vouched-IsRole :
      (a : Authenticator) (r : Request) (t : ℕ) (info : AuthInfo)
      → Vouched a r t info
      → IsRole info.role
  Vouched-IsRole a r t info (inl (_, inl (_, _, admin))) = inl admin
  Vouched-IsRole a r t info (inl (_, inr (_, (_, entry, _, _, _, roled, _)))) =
      RoleOf-IsRole entry.role info.role roled
  Vouched-IsRole a r t info (inr (_, value, _, _, s)) = cookie-IsRole a value t info.role s

  authenticate_bearer-ok :
      (a : Authenticator) (bearer : String) (info : AuthInfo)
      → authenticate_bearer crypto a bearer ≡ ok info
      → resolve_token a bearer ≡ some info
  unfolding authenticate_bearer
  authenticate_bearer-ok a bearer info h = elim (Option-cases (resolve_token a bearer)) [
    | inl lost ↦ absurd (ground arith)
    | inr (i, found) ↦ ground arith
  ]

  authenticate-cases :
      (a : Authenticator) (r : Request) (t : ℕ) (info : AuthInfo)
      → authenticate crypto a r t ≡ ok info
      → Vouched a r t info
  unfolding authenticate
  authenticate-cases a r t info h = elim (Bool-cases (str_eq (extract_bearer r) "")) [
    | inl e ↦
        authenticate_cookie-Vouched a r t info r.cookie ((eq_iff (extract_bearer r) "").0 e) refl
          (ground arith)
    | inr e ↦
        let found = authenticate_bearer-ok a (extract_bearer r) info (ground arith) in
        inl (
          λ k. ground (arith, eq_iff (extract_bearer r) ""),
          resolve_token-KnownAs a (extract_bearer r) info found,
        )
  ]

  -- A request is authenticated only by a bearer token that is the bootstrap token or that of a
  -- listed entry, the first one that has it, or, where it has no bearer token, by a cookie that was
  -- signed with the key and is not expired. The bootstrap token makes an admin, an entry gives its
  -- name, and its role if that is admin and else viewer; a cookie gives the role that it carries.
  -- The role is admin or viewer.
  pub authenticate-Vouched :
      (a : Authenticator) (r : Request) (t : ℕ) (info : AuthInfo)
      → authenticate crypto a r t ≡ ok info
      → Vouched a r t info × IsRole info.role
  authenticate-Vouched a r t info h =
      let v = authenticate-cases a r t info h in (v, Vouched-IsRole a r t info v)
