-- ===== src/Tests/Addresses.antt =====
-- A network in which addresses are numbers, of which 10 alone is private.
use ai_model_gateway.Base.{
  ℕ, ◌≡◌, ◌↔◌, refl, true, false, some, none, [], ◌∷◌, String, ◌==◌, str_eq, if◌then◌else◌,
}
use ai_model_gateway.Ssrf.{SsrfConfig, Url, Net, validate_url, pinned_ip_dialer}
use ai_model_gateway.Ssrf.Safety.{Pinned, pinned_ip_dialer-Pinned}
use ai_model_gateway.Ssrf.Urls.{Acceptable, validate_url-Acceptable}
use ai_model_gateway.Ssrf.Checks.{is_ok}

abbrev site : Url
site = record { scheme = "https"; hostname = "api.example"; has_user = false; path = "/v1" }

abbrev network : Net ℕ ℕ
network = record {
  parse_cidr = λ s. if str_eq s "10.0.0.0/8" then some 10 else none;
  contains = λ r ip. r == ip;
  to4 = λ ip. none;
  parse_ip = λ s. none;
  ip_string = λ ip. "8.8.8.8";
  lookup_ip = λ t host. some (8 ∷ []);
  split_host_port = λ s. some ("api.example", "443");
  join_host_port = λ host port. "8.8.8.8:443";
  parse_url = λ s. some site;
  to_lower = λ s. s;
  has_substring = λ s t. false;
}

abbrev strict : SsrfConfig
strict = record { allow_localhost = false; allow_private_ip = false }

validate_url-Acceptable_example :
    (is_ok (validate_url network strict 0 "https://api.example/v1") ≡ true) ↔ (
      (u : Url) × (host : String) × (network.parse_url "https://api.example/v1" ≡ some u)
      × Acceptable network strict 0 u host)
validate_url-Acceptable_example = validate_url-Acceptable network strict 0 "https://api.example/v1"

pinned_ip_dialer-Pinned_example :
    (host : String) × ((port : String) × ((network.split_host_port "api.example:443"
          ≡ some (host, port))
        × Pinned network strict 0 "api.example:443" host port "8.8.8.8:443"))
unfolding pinned_ip_dialer
pinned_ip_dialer-Pinned_example =
    pinned_ip_dialer-Pinned network strict 0 "api.example:443" "8.8.8.8:443" refl
