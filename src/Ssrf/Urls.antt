-- ===== src/Ssrf/Urls.antt =====
-- Which URLs `ValidateURL` accepts.
use ai_model_gateway.Base.{
  ℕ, zero, suc, sym, get_elem?, ◌⊎◌, ◌≡◌, ◌≢◌, ◌↔◌, inl, inr, refl, ◌∙◌, String, true, false, ◌||◌,
  none, some, List, [], ◌∷◌, any, str_eq, Bool-cases, Option-cases, arith,
}
use ai_model_gateway.Ssrf.{
  SsrfConfig, Url, Net, private_ranges, is_empty, parse_ranges, blocked_ranges, is_private_ip,
  resolve_public, validate_url,
}
use ai_model_gateway.Ssrf.Safety.{none_of_back, Outside, all_Outside, Outside-is_private_ip}
use ai_model_gateway.Ssrf.Checks.{
  acceptable, all_true, all_true_back, is_ok, is_ok-check_url, metadata_back, metadata_when,
  remote_back, remote_when,
}

module _ {Ip Range : Type 0} (net : Net Ip Range) where
  -- no address is looked at: private ones are allowed, or none of the listed ranges can be parsed
  abbrev pub Unchecked : SsrfConfig → Type 0
  Unchecked config =
      (config.allow_private_ip ≡ true)
      ⊎ ((i : ℕ) (text : String)
          → get_elem? private_ranges i ≡ some text
          → net.parse_cidr text ≡ none)

  -- the DNS answers at that moment, and no listed range holds any of its answers
  abbrev pub Resolves : ℕ → String → Type 0
  Resolves now host =
      (ips : List Ip) × (net.lookup_ip now host ≡ some ips)
      × ((i : ℕ) (ip : Ip) → get_elem? ips i ≡ some ip → Outside net ip)

  -- what a URL must be, `host` being its host in lower case
  pub record Acceptable (config : SsrfConfig) (now : ℕ) (u : Url) (host : String) : Type 0 where
    pub lowered : net.to_lower u.hostname ≡ host
    pub scheme : any (str_eq (net.to_lower u.scheme)) ("https" ∷ "http" ∷ "wss" ∷ "ws" ∷ []) ≡ true
    pub remote :
        (config.allow_localhost ≡ true)
        ⊎ ((host ≢ "localhost") × (host ≢ "127.0.0.1") × (host ≢ "::1"))
    pub no_metadata : (host ≢ "169.254.169.254") × (host ≢ "metadata.google.internal")
    pub resolved : Unchecked config ⊎ Resolves now host
    pub anonymous : u.has_user ≡ false
    pub straight : net.has_substring u.path ".." ≡ false
    pub not_hex : net.has_substring host "0x" ≡ false

  parse_ranges-none :
      (texts : List String)
      → is_empty (parse_ranges net texts) ≡ true
      → (i : ℕ) (text : String) → get_elem? texts i ≡ some text
      → net.parse_cidr text ≡ none
  unfolding parse_ranges
  parse_ranges-none [] h i text at = cc
  parse_ranges-none (t ∷ ts) h i text at = elim (Option-cases (net.parse_cidr t)) [
    | inr (r, e) ↦ absurd (ground arith)
    | inl e ↦ tail i text at e (parse_ranges-none ts (ground arith))
  ]
    where
      tail :
          (i : ℕ) (text : String)
          → get_elem? (t ∷ ts) i ≡ some text
          → net.parse_cidr t ≡ none
          → ((j : ℕ) (s : String) → get_elem? ts j ≡ some s → net.parse_cidr s ≡ none)
          → net.parse_cidr text ≡ none
      tail zero text at e rest = let same : t ≡ text = cc in rw (← same) e
      tail (suc j) text at e rest = rest j text at

  none-parse_ranges :
      (texts : List String)
      → ((i : ℕ) (text : String) → get_elem? texts i ≡ some text → net.parse_cidr text ≡ none)
      → is_empty (parse_ranges net texts) ≡ true
  unfolding parse_ranges
  none-parse_ranges [] h = refl
  none-parse_ranges (t ∷ ts) h =
      let lost = h 0 t refl in
      let rest = none-parse_ranges ts (λ i text at. h (suc i) text at) in ground arith

  is_empty-Unchecked :
      (config : SsrfConfig) → is_empty (blocked_ranges net config) ≡ true → Unchecked config
  unfolding blocked_ranges
  is_empty-Unchecked config h = elim (Bool-cases config.allow_private_ip) [
    | inl e ↦ inl e
    | inr e ↦ inr (parse_ranges-none private_ranges (ground arith))
  ]

  Unchecked-is_empty :
      (config : SsrfConfig) → Unchecked config → is_empty (blocked_ranges net config) ≡ true
  unfolding blocked_ranges
  Unchecked-is_empty config (inl e) = ground arith
  Unchecked-is_empty config (inr none_parsed) =
      let rest = none-parse_ranges private_ranges none_parsed in ground arith

  strict :
      (config : SsrfConfig)
      → is_empty (blocked_ranges net config) ≡ false
      → config.allow_private_ip ≡ false
  unfolding blocked_ranges
  strict config h = ground arith

  is_ok-Resolves :
      (config : SsrfConfig) (now : ℕ) (host : String)
      → config.allow_private_ip ≡ false
      → is_ok (resolve_public net config now host) ≡ true
      → Resolves now host
  unfolding resolve_public
  is_ok-Resolves config now host s h = elim (Option-cases (net.lookup_ip now host)) [
    | inl lost ↦ absurd (ground arith)
    | inr (ips, found) ↦ (ips, found, all_Outside net config ips s (ground arith))
  ]

  Resolves-is_ok :
      (config : SsrfConfig) (now : ℕ) (host : String)
      → Resolves now host
      → is_ok (resolve_public net config now host) ≡ true
  unfolding resolve_public
  Resolves-is_ok config now host (ips, found, out) =
      let public =
        none_of_back (is_private_ip net config) ips
          (λ i ip at. Outside-is_private_ip net config ip (out i ip at)) in
      ground arith

  resolved_when :
      (config : SsrfConfig) (now : ℕ) (host : String)
      → (is_empty (blocked_ranges net config) || is_ok (resolve_public net config now host)) ≡ true
      → Unchecked config ⊎ Resolves now host
  resolved_when config now host h = elim (Bool-cases (is_empty (blocked_ranges net config))) [
    | inl e ↦ inl (is_empty-Unchecked config e)
    | inr e ↦ inr (is_ok-Resolves config now host (strict config e) (ground arith))
  ]

  resolved_back :
      (config : SsrfConfig) (now : ℕ) (host : String)
      → Unchecked config ⊎ Resolves now host
      → (is_empty (blocked_ranges net config) || is_ok (resolve_public net config now host)) ≡ true
  resolved_back config now host (inl free) = let e = Unchecked-is_empty config free in ground arith
  resolved_back config now host (inr r) = let e = Resolves-is_ok config now host r in ground arith

  acceptable-Acceptable :
      (config : SsrfConfig) (now : ℕ) (u : Url)
      → acceptable net config now u ≡ true
      → Acceptable config now u (net.to_lower u.hostname)
  unfolding acceptable
  acceptable-Acceptable config now u h =
      let host = net.to_lower u.hostname in
      let (scheme, remote, metadata, resolved, user, path, hex) = all_true _ _ _ _ _ _ _ h in
      record {
        lowered = refl;
        scheme = scheme;
        remote = remote_when config.allow_localhost host remote;
        no_metadata = metadata_when host metadata;
        resolved = resolved_when config now host resolved;
        anonymous = user;
        straight = path;
        not_hex = hex;
      }

  Acceptable-acceptable :
      (config : SsrfConfig) (now : ℕ) (u : Url) (host : String)
      → Acceptable config now u host
      → acceptable net config now u ≡ true
  unfolding acceptable
  Acceptable-acceptable config now u host a = rw a.lowered (
      all_true_back _ _ _ _ _ _ _ a.scheme (remote_back config.allow_localhost host a.remote)
        (metadata_back host a.no_metadata) (resolved_back config now host a.resolved) a.anonymous
        a.straight a.not_hex)

  is_ok-validate_url :
      (config : SsrfConfig) (now : ℕ) (raw_url : String) (u : Url)
      → net.parse_url raw_url ≡ some u
      → is_ok (validate_url net config now raw_url) ≡ acceptable net config now u
  unfolding validate_url
  is_ok-validate_url config now raw_url u parsed =
      rw (validate_url, parsed) (is_ok-check_url net config now u)

  -- `ValidateURL` accepts a text exactly if it parses to a URL with an allowed scheme; whose host
  -- is not one of the two metadata services, and none of the three names of the local host unless
  -- these are allowed; for whose host the DNS answers, no listed range holding any of its answers,
  -- unless private addresses are allowed or no listed range can be parsed; and which has neither
  -- user info, nor a path with `..`, nor a host with `0x`.
  pub validate_url-Acceptable :
      (config : SsrfConfig) (now : ℕ) (raw_url : String)
      → (is_ok (validate_url net config now raw_url) ≡ true) ↔ (
          (u : Url) × (host : String) × (net.parse_url raw_url ≡ some u)
          × Acceptable config now u host)
  unfolding validate_url
  validate_url-Acceptable config now raw_url = (accepted, accepted_back)
    where
      accepted :
          is_ok (validate_url net config now raw_url) ≡ true
          → (u : Url) × (host : String) × (net.parse_url raw_url ≡ some u)
            × Acceptable config now u host
      accepted h = elim (Option-cases (net.parse_url raw_url)) [
        | inl lost ↦ absurd (ground arith)
        | inr (u, parsed) ↦ (
          u,
          net.to_lower u.hostname,
          parsed,
          acceptable-Acceptable config now u
              (sym (is_ok-validate_url config now raw_url u parsed) ∙ h),
        )
      ]

      accepted_back :
          ((u : Url) × (host : String) × (net.parse_url raw_url ≡ some u)
            × Acceptable config now u host)
          → is_ok (validate_url net config now raw_url) ≡ true
      accepted_back (u, host, parsed, a) =
          is_ok-validate_url config now raw_url u parsed ∙ Acceptable-acceptable config now u host a
