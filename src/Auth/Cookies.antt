-- ===== src/Auth/Cookies.antt =====
-- Signed cookies: which are accepted, and until when.
use Prim.Native.String.{◌++◌}
use Prim.Native.Char.{Char, code}
use text.Mathlib.TextEquality.{Char-path}
use ai_model_gateway.Base.{
  List, [], ◌∷◌, ℕ, ◌≡◌, ◌⊎◌, refl, sym, ap, ◌∙◌, arith, String, false, some, inl, inr, Bool-cases,
  Option-cases, ℤ, ok, str_eq, eq_iff,
}
use mathlib.Core.Path.{subst}
use ai_model_gateway.Auth.{
  AuthInfo, Authenticator, Crypto, role_admin, role_viewer, dot, colon, normalize_role,
  resolve_token, find_token, TokenEntry, split_first, is_expired, sign, payload_fields,
  check_fields, verify_parts, verify,
}
use ai_model_gateway.Auth.Texts.{Lacks, split_first-some}

abbrev pub IsRole : String → Type 0
IsRole role = (role ≡ role_admin) ⊎ (role ≡ role_viewer)

pub normalize_role-IsRole : (role : String) → IsRole (normalize_role role)
unfolding normalize_role
normalize_role-IsRole role = elim (Bool-cases (str_eq role role_admin)) [
  | inl e ↦ inl (ground (arith, eq_iff role role_admin))
  | inr e ↦ elim (Bool-cases (str_eq role role_viewer)) [
    | inl f ↦ inr (ground (arith, eq_iff role role_viewer))
    | inr f ↦ inr (ground arith)
  ]
]

pub normalize_role_twice : (role : String) → IsRole role → normalize_role role ≡ role
unfolding normalize_role
normalize_role_twice role (inl e) = ground (arith, eq_iff role role_admin)
normalize_role_twice role (inr e) = ground (arith, eq_iff role role_viewer)

pub IsRole-Lacks : (role : String) → IsRole role → Lacks (code dot) role
IsRole-Lacks role (inl e) =
    subst (Lacks (code dot)) (sym e) (refl, (refl, (refl, (refl, (refl, tt)))))
IsRole-Lacks role (inr e) =
    subst (Lacks (code dot)) (sym e) (refl, (refl, (refl, (refl, (refl, (refl, tt))))))

find_token-IsRole :
    (token : String) (ts : List TokenEntry) (info : AuthInfo)
    → find_token token ts ≡ some info
    → IsRole info.role
unfolding find_token
find_token-IsRole token [] info h = cc
find_token-IsRole token (t ∷ ts) info h = elim (Bool-cases (str_eq token t.token)) [
  | inl e ↦
      let same : normalize_role t.role ≡ info.role = ground arith in
      subst IsRole same (normalize_role-IsRole t.role)
  | inr e ↦ find_token-IsRole token ts info (ground arith)
]

pub resolve_token-IsRole :
    (a : Authenticator) (token : String) (info : AuthInfo)
    → resolve_token a token ≡ some info
    → IsRole info.role
unfolding resolve_token
resolve_token-IsRole a token info h = elim (Bool-cases (str_eq token a.bootstrap_token)) [
  | inl e ↦ inl (ground arith)
  | inr e ↦ find_token-IsRole token a.tokens info (ground arith)
]

-- strconv: a number is read back, and its text is digits with a sign
pub record Decimal (crypto : Crypto) : Type 0 where
  pub parse_int-format_int : (n : ℤ) → crypto.parse_int (crypto.format_int n) ≡ some n
  pub no_dot : (n : ℤ) → Lacks (code dot) (crypto.format_int n)
  pub no_colon : (n : ℤ) → Lacks (code colon) (crypto.format_int n)

module _ (crypto : Crypto) where
  -- Whatever `verify` accepts was signed with the key: it is a payload, a dot and the payload's
  -- signature; the payload carries a number of seconds that has not expired, and the role that is
  -- returned is the payload's, made viewer unless it is admin or viewer.
  pub record Signed (a : Authenticator) (value : String) (now : ℕ) (role : String) : Type 0 where
    pub payload : String
    pub issued : ℤ
    pub signed : value ≡ sign crypto a payload
    pub stamped : crypto.parse_int (payload_fields crypto payload).1 ≡ some issued
    pub fresh : is_expired issued now ≡ false
    pub roled : role ≡ normalize_role (payload_fields crypto payload).0

  verify_parts-Signed :
      (a : Authenticator) (now : ℕ) (payload sig value role : String)
      → value ≡ payload ++ String.◌∷◌ dot sig
      → verify_parts crypto a now payload sig ≡ ok role
      → Signed a value now role
  unfolding verify_parts check_fields sign
  verify_parts-Signed a now payload sig value role w h =
      elim (Bool-cases (str_eq sig (crypto.signature a.cookie_signing_key payload))) [
        | inr e ↦ absurd (ground arith)
        | inl e ↦ elim (Option-cases (crypto.parse_int (payload_fields crypto payload).1)) [
          | inl lost ↦ absurd (ground arith)
          | inr (issued, stamped) ↦ elim (Bool-cases (is_expired issued now)) [
            | inl late ↦ absurd (ground arith)
            | inr fresh ↦ record {
              payload = payload;
              issued = issued;
              signed =
                  w
                  ∙ ap (λ z. payload ++ String.◌∷◌ dot z)
                      ((eq_iff sig (crypto.signature a.cookie_signing_key payload)).0 e);
              stamped = stamped;
              fresh = fresh;
              roled = ground arith;
            }
          ]
        ]
      ]

  dot_of_code : (d : Char) → code d ≡ code dot → d ≡ dot
  dot_of_code d h = Char-path d dot h

  pub verify-Signed :
      (a : Authenticator) (value : String) (now : ℕ) (role : String)
      → verify crypto a value now ≡ ok role
      → Signed a value now role
  unfolding verify
  verify-Signed a value now role h = elim (Option-cases (split_first (code dot) value)) [
    | inl lost ↦ absurd (ground arith)
    | inr ((payload, sig), found) ↦
        let (d, at, whole) = split_first-some (code dot) value payload sig found in
        verify_parts-Signed a now payload sig value role
          (whole ∙ ap (λ z. payload ++ String.◌∷◌ z sig) (dot_of_code d at)) (ground arith)
  ]
