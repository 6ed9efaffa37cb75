-- ===== src/Ssrf/Checks.antt =====
-- The chain of tests of `ValidateURL` as one Boolean.
use ai_model_gateway.Base.{
  ℕ, ◌⊎◌, ◌≡◌, ◌≢◌, eq_iff, inl, inr, refl, ap, ◌∙◌, String, Bool, true, false, not, ◌&&◌, ◌||◌,
  any, str_eq, if◌then◌else◌, arith,
}
use ai_model_gateway.Ssrf.{
  SsrfConfig, Url, Net, scheme_not_allowed, localhost_not_allowed, metadata_not_allowed,
  user_info_not_allowed, path_traversal, hex_host, Result, ok, err, allowed_schemes, metadata_hosts,
  is_empty, blocked_ranges, resolve_public, check_rest, check_resolution, is_localhost, check_url,
}

abbrev pub is_ok : {A : Type 0} → Result A → Bool
is_ok (ok a) = true
is_ok (err e) = false

bool_chain :
    (a b c : Bool)
    → is_ok (
        if a
        then err user_info_not_allowed
        else if b
        then err path_traversal
        else if c
        then err hex_host
        else ok tt)
      ≡ (not a && (not b && not c))
bool_chain a b c = ground arith

url_chain :
    (a b c d : Bool) (r : Result Unit)
    → is_ok (
        if not a
        then err scheme_not_allowed
        else if not b && c
        then err localhost_not_allowed
        else if d
        then err metadata_not_allowed
        else r)
      ≡ (a && ((b || not c) && (not d && is_ok r)))
url_chain a b c d r = ground arith

resolution_chain :
    {A : Type 0} (a : Bool) (r : Result A) (x : Result Unit)
    → is_ok (if a then x else elim r [ ok ips ↦ x | err e ↦ err e ]) ≡ ((a || is_ok r) && is_ok x)
resolution_chain true r x = refl
resolution_chain false (ok a) x = refl
resolution_chain false (err e) x = refl

pub all_true :
    (a b c d e f g : Bool)
    → (a && (b && (not c && (d && (not e && (not f && not g)))))) ≡ true
    → (a ≡ true) × (b ≡ true) × (c ≡ false) × (d ≡ true) × (e ≡ false) × (f ≡ false) × (g ≡ false)
all_true a b c d e f g h = (
  ground arith,
  ground arith,
  ground arith,
  ground arith,
  ground arith,
  ground arith,
  ground arith,
)

pub all_true_back :
    (a b c d e f g : Bool)
    → a ≡ true
    → b ≡ true
    → c ≡ false
    → d ≡ true
    → e ≡ false
    → f ≡ false
    → g ≡ false
    → (a && (b && (not c && (d && (not e && (not f && not g)))))) ≡ true
all_true_back a b c d e f g ha hb hc hd he hf hg = ground arith

pub remote_when :
    (allowed : Bool) (host : String)
    → (allowed || not (str_eq host "localhost" || (str_eq host "127.0.0.1" || str_eq host "::1")))
      ≡ true
    → (allowed ≡ true) ⊎ ((host ≢ "localhost") × (host ≢ "127.0.0.1") × (host ≢ "::1"))
remote_when true host h = inl refl
remote_when false host h = inr (
  λ e. ground (arith, eq_iff host "localhost"),
  λ e. ground (arith, eq_iff host "127.0.0.1"),
  λ e. ground (arith, eq_iff host "::1"),
)

differs : (a b : String) → a ≢ b → str_eq a b ≡ false
differs a b h = ground (arith, eq_iff a b)

pub remote_back :
    (allowed : Bool) (host : String)
    → (allowed ≡ true) ⊎ ((host ≢ "localhost") × (host ≢ "127.0.0.1") × (host ≢ "::1"))
    → (allowed || not (str_eq host "localhost" || (str_eq host "127.0.0.1" || str_eq host "::1")))
      ≡ true
remote_back allowed host (inl h) = ground arith
remote_back allowed host (inr (a, b, c)) =
    rw (differs host _ a, differs host _ b, differs host _ c) (ground arith)

pub metadata_when :
    (host : String)
    → any (str_eq host) metadata_hosts ≡ false
    → (host ≢ "169.254.169.254") × (host ≢ "metadata.google.internal")
metadata_when host h = (
  λ e. ground (arith, eq_iff host "169.254.169.254"),
  λ e. ground (arith, eq_iff host "metadata.google.internal"),
)

pub metadata_back :
    (host : String)
    → (host ≢ "169.254.169.254") × (host ≢ "metadata.google.internal")
    → any (str_eq host) metadata_hosts ≡ false
metadata_back host (a, b) = rw (differs host _ a, differs host _ b)

module _ {Ip Range : Type 0} (net : Net Ip Range) where
  -- the tests of `ValidateURL` as one
  unfoldable pub acceptable : SsrfConfig → ℕ → Url → Bool
  acceptable config now u =
      let host = net.to_lower u.hostname in
      any (str_eq (net.to_lower u.scheme)) allowed_schemes
      && ((config.allow_localhost || not (is_localhost net host))
          && (not (any (str_eq host) metadata_hosts)
              && ((is_empty (blocked_ranges net config)
                    || is_ok (resolve_public net config now host))
                  && (not u.has_user
                      && (not (net.has_substring u.path "..")
                          && not (net.has_substring host "0x"))))))

  is_ok-check_rest :
      (u : Url) (host : String)
      → is_ok (check_rest net u host) ≡ (
          not u.has_user
          && (not (net.has_substring u.path "..") && not (net.has_substring host "0x")))
  unfolding check_rest
  is_ok-check_rest u host =
      bool_chain u.has_user (net.has_substring u.path "..") (net.has_substring host "0x")

  is_ok-check_resolution :
      (config : SsrfConfig) (now : ℕ) (u : Url) (host : String)
      → is_ok (check_resolution net config now u host) ≡ (
          (is_empty (blocked_ranges net config) || is_ok (resolve_public net config now host))
          && is_ok (check_rest net u host))
  unfolding check_resolution
  is_ok-check_resolution config now u host =
      resolution_chain (is_empty (blocked_ranges net config)) (resolve_public net config now host)
        (check_rest net u host)

  pub is_ok-check_url :
      (config : SsrfConfig) (now : ℕ) (u : Url)
      → is_ok (check_url net config now u) ≡ acceptable config now u
  unfolding check_url acceptable
  is_ok-check_url config now u =
      let host = net.to_lower u.hostname in
      let scheme = any (str_eq (net.to_lower u.scheme)) allowed_schemes in
      url_chain scheme config.allow_localhost (is_localhost net host)
        (any (str_eq host) metadata_hosts) (check_resolution net config now u host)
      ∙ ap
          (λ b.
            scheme
            && ((config.allow_localhost || not (is_localhost net host))
                && (not (any (str_eq host) metadata_hosts) && b)))
          (is_ok-check_resolution config now u host
            ∙ ap
                (λ b.
                  (is_empty (blocked_ranges net config)
                    || is_ok (resolve_public net config now host))
                  && b)
                (is_ok-check_rest u host))
