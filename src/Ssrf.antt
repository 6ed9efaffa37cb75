-- ===== src/Ssrf.antt =====
-- internal/proxy/ssrf.go: which URLs and which addresses the gateway may connect to. The packages
-- net and net/url are the parameter `net`, and the clock of a DNS query is explicit, since two
-- queries for one name may be answered differently. `NewSafeTransport` and `NewSafeDialer` only put
-- `pinned_ip_dialer` into a transport.
pub mod Safety
pub mod Checks
pub mod Urls
use ai_model_gateway.Base.{
  ℕ, String, Bool, true, false, not, ◌&&◌, ◌||◌, Option, none, some, List, [], ◌∷◌, ◌++◌, any,
  str_eq, if◌then◌else◌,
}

pub record SsrfConfig : Type 0 where
  pub allow_localhost : Bool
  pub allow_private_ip : Bool

-- what `url.Parse` returns, as far as the checker reads it
pub record Url : Type 0 where
  pub scheme : String
  pub hostname : String
  pub has_user : Bool
  pub path : String

-- the operations of net, net/url and strings that the checker calls
pub record Net (Ip Range : Type 0) : Type 0 where
  pub parse_cidr : String → Option Range
  pub contains : Range → Ip → Bool
  pub to4 : Ip → Option Ip
  pub parse_ip : String → Option Ip
  pub ip_string : Ip → String
  pub lookup_ip : ℕ → String → Option (List Ip)
  pub split_host_port : String → Option (String × String)
  pub join_host_port : String → String → String
  pub parse_url : String → Option Url
  pub to_lower : String → String
  pub has_substring : String → String → Bool

pub data SsrfError : Type 0 where
  invalid_url : SsrfError
  scheme_not_allowed : SsrfError
  localhost_not_allowed : SsrfError
  metadata_not_allowed : SsrfError
  dns_failed : SsrfError
  private_ip : SsrfError
  user_info_not_allowed : SsrfError
  path_traversal : SsrfError
  hex_host : SsrfError
  invalid_address : SsrfError
  no_addresses : SsrfError

pub data Result (A : Type 0) : Type 0 where
  ok : A → Result A
  err : SsrfError → Result A

abbrev pub private_ranges : List String
private_ranges =
    "10.0.0.0/8" ∷ "172.16.0.0/12" ∷ "192.168.0.0/16" ∷ "127.0.0.0/8" ∷ "169.254.0.0/16"
    ∷ "0.0.0.0/8" ∷ "100.64.0.0/10" ∷ "192.0.0.0/24" ∷ "192.0.2.0/24" ∷ "198.51.100.0/24"
    ∷ "203.0.113.0/24" ∷ "224.0.0.0/4" ∷ "240.0.0.0/4" ∷ "255.255.255.255/32" ∷ "::1/128"
    ∷ "fc00::/7" ∷ "fe80::/10" ∷ "ff00::/8" ∷ "100::/64" ∷ "2001:db8::/32" ∷ []

abbrev pub allowed_schemes : List String
allowed_schemes = "https" ∷ "http" ∷ "wss" ∷ "ws" ∷ []

abbrev pub metadata_hosts : List String
metadata_hosts = "169.254.169.254" ∷ "metadata.google.internal" ∷ []

abbrev pub is_empty {ℓ} : {A : Type ℓ} → List A → Bool
is_empty [] = true
is_empty (x ∷ xs) = false

module _ {Ip Range : Type 0} (net : Net Ip Range) where
  pub parse_ranges : List String → List Range
  parse_ranges [] = []
  parse_ranges (r ∷ rs) = elim (net.parse_cidr r) [
    | none ↦ parse_ranges rs
    | some range ↦ range ∷ parse_ranges rs
  ]

  -- the blocked ranges of NewSSRFCheckerWithConfig
  pub blocked_ranges : SsrfConfig → List Range
  unfolding parse_ranges
  blocked_ranges config = if config.allow_private_ip then [] else parse_ranges private_ranges

  -- `if v4 := ip.To4(); v4 != nil { ip = v4 }`
  abbrev pub normalized : Ip → Ip
  normalized ip = elim (net.to4 ip) [ none ↦ ip | some v4 ↦ v4 ]

  -- IsPrivateIP
  pub is_private_ip : SsrfConfig → Ip → Bool
  unfolding blocked_ranges
  is_private_ip config ip = any (λ r. net.contains r (normalized ip)) (blocked_ranges config)

  -- the part of ValidateURL and of ResolveAndValidateHost that asks the DNS
  pub resolve_public : SsrfConfig → ℕ → String → Result (List Ip)
  unfolding is_private_ip
  resolve_public config now host = elim (net.lookup_ip now host) [
    | none ↦ err dns_failed
    | some ips ↦ if any (is_private_ip config) ips then err private_ip else ok ips
  ]

  -- the checks of ValidateURL that follow the resolution
  pub check_rest : Url → String → Result Unit
  check_rest u host =
      if u.has_user
      then err user_info_not_allowed
      else if net.has_substring u.path ".."
      then err path_traversal
      else if net.has_substring host "0x"
      then err hex_host
      else ok tt

  pub check_resolution : SsrfConfig → ℕ → Url → String → Result Unit
  unfolding resolve_public check_rest
  check_resolution config now u host =
      if is_empty (blocked_ranges config)
      then check_rest u host
      else elim (resolve_public config now host) [ ok ips ↦ check_rest u host | err e ↦ err e ]

  abbrev pub is_localhost : String → Bool
  is_localhost host = str_eq host "localhost" || (str_eq host "127.0.0.1" || str_eq host "::1")

  pub check_url : SsrfConfig → ℕ → Url → Result Unit
  unfolding check_resolution
  check_url config now u =
      let host = net.to_lower u.hostname in
      if not (any (str_eq (net.to_lower u.scheme)) allowed_schemes)
      then err scheme_not_allowed
      else if not config.allow_localhost && is_localhost host
      then err localhost_not_allowed
      else if any (str_eq host) metadata_hosts
      then err metadata_not_allowed
      else check_resolution config now u host

  -- ValidateURL
  pub validate_url : SsrfConfig → ℕ → String → Result Unit
  unfolding check_url
  validate_url config now raw_url = elim (net.parse_url raw_url) [
    | none ↦ err invalid_url
    | some u ↦ check_url config now u
  ]

  -- ResolveAndValidateHost
  pub resolve_and_validate_host : SsrfConfig → ℕ → String → Result (List Ip)
  unfolding resolve_public
  resolve_and_validate_host config now host =
      if is_empty (blocked_ranges config) then ok [] else resolve_public config now host

  -- the address of the first resolved IP
  pub pin : String → List Ip → Result String
  pin port [] = err no_addresses
  pin port (ip ∷ ips) = ok (net.join_host_port (net.ip_string ip) port)

  pub dial_host : SsrfConfig → ℕ → String → String → String → Result String
  unfolding is_private_ip resolve_and_validate_host pin
  dial_host config now addr host port = elim (net.parse_ip host) [
    | some ip ↦ if is_private_ip config ip then err private_ip else ok addr
    | none ↦ elim (resolve_and_validate_host config now host) [
      | err e ↦ err e
      | ok ips ↦ pin port ips
    ]
  ]

  -- pinnedIPDialer: the address that the base dialer is called with
  unfoldable pub pinned_ip_dialer : SsrfConfig → ℕ → String → Result String
  unfolding dial_host
  pinned_ip_dialer config now addr = elim (net.split_host_port addr) [
    | none ↦ err invalid_address
    | some (host, port) ↦ dial_host config now addr host port
  ]
