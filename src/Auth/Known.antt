-- ===== src/Auth/Known.antt =====
-- What a token is known as: the bootstrap token, or the first entry that has it.
use text.Mathlib.TextEquality.{eq_iff}
use ai_model_gateway.Base.{
  ◌≢◌, ℕ, suc, zero, ◌<◌, false, List, [], ◌∷◌, get_elem?, ◌≡◌, ◌⊎◌, refl, sym, ap, arith, String,
  some, inl, inr, Bool-cases, str_eq,
}
use mathlib.Core.Path.{subst}
use ai_model_gateway.Auth.{
  AuthInfo, TokenEntry, normalize_role, find_token, Authenticator, resolve_token,
}
use ai_model_gateway.Auth.Cookies.{IsRole}

-- the role that a listed token gives: the one that is written, if it is admin, and else viewer
abbrev RoleOf : String → String → Type 0
RoleOf written role =
    ((written ≡ "admin") × (role ≡ "admin")) ⊎ ((written ≢ "admin") × (role ≡ "viewer"))

pub RoleOf-IsRole : (written role : String) → RoleOf written role → IsRole role
RoleOf-IsRole written role (inl (_, admin)) = inl admin
RoleOf-IsRole written role (inr (_, viewer)) = inr viewer

-- the first entry of a list of tokens that has the given token
abbrev Listed : List TokenEntry → String → AuthInfo → Type 0
Listed ts token info =
    (i : ℕ) × (t : TokenEntry) × (get_elem? ts i ≡ some t)
    × (t.token ≡ token)
    × (info.name ≡ t.name)
    × RoleOf t.role info.role
    × ((j : ℕ) (u : TokenEntry) → j < i → get_elem? ts j ≡ some u → u.token ≢ token)

-- what a token is known as: the bootstrap token, or else the first entry that has it
abbrev pub KnownAs : Authenticator → String → AuthInfo → Type 0
KnownAs a token info =
    ((token ≡ a.bootstrap_token) × (info.name ≡ "bootstrap") × (info.role ≡ "admin"))
    ⊎ ((token ≢ a.bootstrap_token) × Listed a.tokens token info)

normalize_role-RoleOf : (written : String) → RoleOf written (normalize_role written)
unfolding normalize_role
normalize_role-RoleOf written = elim (Bool-cases (str_eq written "admin")) [
  | inl e ↦ inl (ground (arith, eq_iff written "admin"), ground (arith, eq_iff written "admin"))
  | inr e ↦ elim (Bool-cases (str_eq written "viewer")) [
    | inl f ↦
        inr (λ h. ground (arith, eq_iff written "admin"), ground (arith, eq_iff written "viewer"))
    | inr f ↦ inr (λ h. ground (arith, eq_iff written "admin"), ground arith)
  ]
]

find_token-Listed :
    (ts : List TokenEntry) (token : String) (info : AuthInfo)
    → find_token token ts ≡ some info
    → Listed ts token info
unfolding find_token
find_token-Listed [] token info h = cc
find_token-Listed (t ∷ ts) token info h = elim (Bool-cases (str_eq token t.token)) [
  | inl e ↦
      let found : AuthInfo = record { name = t.name; role = normalize_role t.role } in
      let same : found ≡ info = ground arith in
      (
        0,
        t,
        refl,
        sym ((eq_iff token t.token).0 e),
        sym (ap (λ (i : AuthInfo). i.name) same),
        subst (RoleOf t.role) (ap (λ (i : AuthInfo). i.role) same) (normalize_role-RoleOf t.role),
        λ j u below. absurd (omega arith),
      )
  | inr e ↦
      let (i, u, at, own, named, roled, earlier) = find_token-Listed ts token info (ground arith) in
      (suc i, u, at, own, named, roled, before i earlier e)
]
  where
    before :
        (i : ℕ)
        → ((j : ℕ) (u : TokenEntry) → j < i → get_elem? ts j ≡ some u → u.token ≢ token)
        → str_eq token t.token ≡ false
        → (j : ℕ) (u : TokenEntry) → j < suc i
        → get_elem? (t ∷ ts) j ≡ some u
        → u.token ≢ token
    before i earlier e zero u below at same =
        let first : t ≡ u = cc in ground (arith, eq_iff token t.token)
    before i earlier e (suc j) u below at same = earlier j u (omega arith) at same

pub resolve_token-KnownAs :
    (a : Authenticator) (token : String) (info : AuthInfo)
    → resolve_token a token ≡ some info
    → KnownAs a token info
unfolding resolve_token
resolve_token-KnownAs a token info h = elim (Bool-cases (str_eq token a.bootstrap_token)) [
  | inl e ↦
      let found : AuthInfo = record { name = "bootstrap"; role = "admin" } in
      let same : found ≡ info = ground arith in
      inl (
        (eq_iff token a.bootstrap_token).0 e,
        sym (ap (λ (i : AuthInfo). i.name) same),
        sym (ap (λ (i : AuthInfo). i.role) same),
      )
  | inr e ↦ inr (
    λ same. ground (arith, eq_iff token a.bootstrap_token),
    find_token-Listed a.tokens token info (ground arith),
  )
]
