-- ===== src/Ssrf/Safety.antt =====
-- What the SSRF checker lets through.
use mathlib.Core.Path.{subst}
use ai_model_gateway.Base.{
  ℕ, zero, suc, sym, get_elem?, ◌⊎◌, ◌≡◌, inl, inr, refl, ap, String, Bool, true, false, not, ◌&&◌,
  none, some, List, [], ◌∷◌, any, Bool-cases, Option-cases, arith,
}
use ai_model_gateway.Ssrf.{
  SsrfConfig, Net, no_addresses, ok, err, private_ranges, is_empty, parse_ranges, blocked_ranges,
  normalized, is_private_ip, resolve_public, resolve_and_validate_host, pin, dial_host,
  pinned_ip_dialer,
}

none_of {ℓ} :
    {A : Type ℓ} (f : A → Bool) (xs : List A)
    → any f xs ≡ false
    → (i : ℕ) (x : A) → get_elem? xs i ≡ some x
    → f x ≡ false
none_of f [] h i x at = cc
none_of f (y ∷ ys) h zero x at = let same : y ≡ x = cc in ground (arith, ap f same)
none_of f (y ∷ ys) h (suc i) x at = none_of f ys (ground arith) i x at

pub none_of_back {ℓ} :
    {A : Type ℓ} (f : A → Bool) (xs : List A)
    → ((i : ℕ) (x : A) → get_elem? xs i ≡ some x → f x ≡ false)
    → any f xs ≡ false
none_of_back f [] h = refl
none_of_back f (x ∷ xs) h =
    let first = h 0 x refl in
    let rest = none_of_back f xs (λ i y at. h (suc i) y at) in ground arith

module _ {Ip Range : Type 0} (net : Net Ip Range) where
  -- an address that a range, given by its text, holds
  pub in_range : Ip → String → Bool
  in_range ip text = elim (net.parse_cidr text) [
    | none ↦ false
    | some r ↦ net.contains r (normalized net ip)
  ]

  any-parse_ranges :
      (ip : Ip) (texts : List String)
      → any (λ r. net.contains r (normalized net ip)) (parse_ranges net texts)
        ≡ any (in_range ip) texts
  unfolding parse_ranges in_range
  any-parse_ranges ip [] = refl
  any-parse_ranges ip (t ∷ ts) = elim (Option-cases (net.parse_cidr t)) [
    | inl e ↦ ground (arith, any-parse_ranges ip ts)
    | inr (r, e) ↦ ground (arith, any-parse_ranges ip ts)
  ]

  -- `IsPrivateIP` holds exactly when private addresses are not allowed and one of the listed ranges
  -- that can be parsed holds the address, an IPv4-mapped one by its IPv4 form.
  pub is_private_ip-in_range :
      (config : SsrfConfig) (ip : Ip)
      → is_private_ip net config ip
        ≡ (not config.allow_private_ip && any (in_range ip) private_ranges)
  unfolding is_private_ip blocked_ranges
  is_private_ip-in_range config ip = elim (Bool-cases config.allow_private_ip) [
    | inl e ↦ rw e refl
    | inr e ↦ rw e (any-parse_ranges ip private_ranges)
  ]

  -- the form in which an address is looked up: its four bytes, where it has such a form
  abbrev pub Form : Ip → Ip → Type 0
  Form ip shown = (net.to4 ip ≡ some shown) ⊎ ((net.to4 ip ≡ none) × (shown ≡ ip))

  -- an address that no listed range holds
  abbrev pub Outside : Ip → Type 0
  Outside ip =
      (shown : Ip) (i : ℕ) (text : String) (range : Range)
      → Form ip shown
      → get_elem? private_ranges i ≡ some text
      → net.parse_cidr text ≡ some range
      → net.contains range shown ≡ false

  Form-normalized : (ip shown : Ip) → Form ip shown → normalized net ip ≡ shown
  Form-normalized ip shown (inl four) = rw (normalized, four)
  Form-normalized ip shown (inr (more, same)) = rw (normalized, more) (sym same)

  normalized-Form : (ip : Ip) → Form ip (normalized net ip)
  normalized-Form ip = elim (Option-cases (net.to4 ip)) [
    | inl more ↦ inr (more, rw (normalized, more))
    | inr (v4, four) ↦ inl (rw (normalized, four))
  ]

  in_range-Outside : (ip : Ip) → any (in_range ip) private_ranges ≡ false → Outside ip
  unfolding in_range
  in_range-Outside ip h shown i text range form at parsed =
      rw (← Form-normalized ip shown form)
        (rw (in_range, parsed) at (none_of (in_range ip) private_ranges h i text at))

  in_range-none :
      (ip : Ip) (text : String)
      → ((range : Range)
          → net.parse_cidr text ≡ some range
          → net.contains range (normalized net ip) ≡ false)
      → in_range ip text ≡ false
  unfolding in_range
  in_range-none ip text h = elim (Option-cases (net.parse_cidr text)) [
    | inl lost ↦ rw (in_range, lost)
    | inr (range, parsed) ↦ rw (in_range, parsed) (h range parsed)
  ]

  -- an address is dialled where private addresses are allowed, or where no listed range holds it
  pub is_private_ip-Outside :
      (config : SsrfConfig) (ip : Ip)
      → config.allow_private_ip ≡ false
      → is_private_ip net config ip ≡ false
      → Outside ip
  is_private_ip-Outside config ip strict h =
      in_range-Outside ip (ground (arith, is_private_ip-in_range config ip))

  pub Outside-is_private_ip :
      (config : SsrfConfig) (ip : Ip) → Outside ip → is_private_ip net config ip ≡ false
  Outside-is_private_ip config ip out =
      let nowhere : any (in_range ip) private_ranges ≡ false =
        none_of_back (in_range ip) private_ranges (λ i text at.
          in_range-none ip text (λ range parsed.
            out (normalized net ip) i text range (normalized-Form ip) at parsed)) in
      ground (arith, is_private_ip-in_range config ip)

  pub all_Outside :
      (config : SsrfConfig) (ips : List Ip)
      → config.allow_private_ip ≡ false
      → any (is_private_ip net config) ips ≡ false
      → (i : ℕ) (ip : Ip) → get_elem? ips i ≡ some ip
      → Outside ip
  all_Outside config ips strict h i ip at =
      is_private_ip-Outside config ip strict (none_of (is_private_ip net config) ips h i ip at)

  -- the address that a dial is pinned to: the given one, whose host is an address that no listed
  -- range holds unless private addresses are allowed, or the first one that the DNS answered, where
  -- private addresses are not allowed and no listed range holds any of its answers
  pub data Pinned (config : SsrfConfig) (now : ℕ) (addr host port : String) : String → Type 0 where
    literal :
        (ip : Ip)
        → net.parse_ip host ≡ some ip
        → (config.allow_private_ip ≡ false → Outside ip)
        → Pinned config now addr host port addr
    resolved :
        (ip : Ip) (ips : List Ip)
        → net.parse_ip host ≡ none
        → net.lookup_ip now host ≡ some (ip ∷ ips)
        → config.allow_private_ip ≡ false
        → ((i : ℕ) (other : Ip) → get_elem? (ip ∷ ips) i ≡ some other → Outside other)
        → Pinned config now addr host port (net.join_host_port (net.ip_string ip) port)

  pin-resolved :
      (config : SsrfConfig) (now : ℕ) (addr host port target : String) (ips : List Ip)
      → net.parse_ip host ≡ none
      → net.lookup_ip now host ≡ some ips
      → config.allow_private_ip ≡ false
      → any (is_private_ip net config) ips ≡ false
      → pin net port ips ≡ ok target
      → Pinned config now addr host port target
  unfolding pin
  pin-resolved config now addr host port target [] name found strict public h = cc
  pin-resolved config now addr host port target (ip ∷ ips) name found strict public h =
      let same : net.join_host_port (net.ip_string ip) port ≡ target = cc in
      subst (Pinned config now addr host port) same
        (Pinned.resolved ip ips name found strict (all_Outside config (ip ∷ ips) strict public))

  strict_ranges :
      (config : SsrfConfig)
      → is_empty (blocked_ranges net config) ≡ false
      → config.allow_private_ip ≡ false
  unfolding blocked_ranges
  strict_ranges config h = ground arith

  dial_host-Pinned :
      (config : SsrfConfig) (now : ℕ) (addr host port target : String)
      → dial_host net config now addr host port ≡ ok target
      → Pinned config now addr host port target
  unfolding dial_host resolve_and_validate_host resolve_public pin
  dial_host-Pinned config now addr host port target h = elim (Option-cases (net.parse_ip host)) [
    | inr (ip, e) ↦ elim (Bool-cases (is_private_ip net config ip)) [
      | inl p ↦ absurd (ground arith)
      | inr p ↦
          let same : addr ≡ target = ground arith in
          subst (Pinned config now addr host port) same
            (Pinned.literal ip e (λ strict. is_private_ip-Outside config ip strict p))
    ]
    | inl e ↦ elim (Bool-cases (is_empty (blocked_ranges net config))) [
      | inl b ↦ absurd (ground arith)
      | inr b ↦ elim (Option-cases (net.lookup_ip now host)) [
        | inl n ↦ absurd (ground arith)
        | inr (ips, found) ↦ elim (Bool-cases (any (is_private_ip net config) ips)) [
          | inl p ↦ absurd (ground arith)
          | inr p ↦
              pin-resolved config now addr host port target ips e found (strict_ranges config b) p
                (ground arith)
        ]
      ]
    ]
  ]

  -- When the dialer dials where private addresses are not allowed, the address is the given one, and
  -- its host is an IP that no listed range holds, or it is the first IP that the DNS answered at
  -- that moment, and no listed range holds any of the answers. Where private addresses are allowed,
  -- it dials the given address only, and only if its host is an IP.
  pub pinned_ip_dialer-Pinned :
      (config : SsrfConfig) (now : ℕ) (addr target : String)
      → pinned_ip_dialer net config now addr ≡ ok target
      → (host : String) × ((port : String) × ((net.split_host_port addr ≡ some (host, port))
            × Pinned config now addr host port target))
  unfolding pinned_ip_dialer
  pinned_ip_dialer-Pinned config now addr target h =
      elim (Option-cases (net.split_host_port addr)) [
        | inl e ↦ absurd (ground arith)
        | inr ((host, port), e) ↦
            (host, (port, (e, dial_host-Pinned config now addr host port target (ground arith))))
      ]

  -- with private addresses allowed, every host name is refused
  pub pinned_ip_dialer-unrestricted :
      (config : SsrfConfig) (now : ℕ) (addr host port : String)
      → config.allow_private_ip ≡ true
      → net.split_host_port addr ≡ some (host, port)
      → net.parse_ip host ≡ none
      → pinned_ip_dialer net config now addr ≡ err no_addresses
  unfolding pinned_ip_dialer dial_host resolve_and_validate_host blocked_ranges pin
  pinned_ip_dialer-unrestricted config now addr host port allowed split name =
      ground (arith, split, name, allowed)
