-- ===== src/Web/Tests.antt =====
-- Tests and examples for the addresses of tools/web.rs.
use h_agent_core.Base.{
  ℕ, String, true, false, not, [], ◌∷◌, Option, none, some, any, one_of, str_eq, if◌then◌else◌,
  arith, All, ◌≡◌, ◌≢◌, refl,
}
use h_agent_core.Web.{
  Ipv4Addr, Ipv6Addr, IpAddr, v4, v6, Url, Lookup, found, is_none, is_public_ipv4, is_public,
  allowed, refused, security, to_ipv4_mapped, validate_target, any_blocked, is_dns_proxy_fake_ip,
}
use h_agent_core.Web.Blocks.{value, in_block, reserved, is_public_ipv4-blocks}
use h_agent_core.Web.Targets.{may_fetch, validate_target-may_fetch}

abbrev proxied : Ipv4Addr
proxied = record { a = 198; b = 18; c = 0; d = 7 }

abbrev mapped_loopback : Ipv6Addr
mapped_loopback = record { s0 = 0; s1 = 0; s2 = 0; s3 = 0; s4 = 0; s5 = 65535; s6 = 32512; s7 = 1 }

mapped_loopback_blocked : is_public (v6 mapped_loopback) ≡ false
unfolding is_public is_public_ipv4 to_ipv4_mapped
mapped_loopback_blocked = refl

abbrev site : Url
site = record {
  scheme = "https";
  username = "";
  password = none;
  host_str = some "example.org";
  port_or_known_default = some 443;
}

abbrev answer : String → ℕ → Lookup
answer host port = found (v4 proxied ∷ [])

abbrev parsed : String → Option IpAddr
parsed host = if str_eq host "198.18.0.7" then some (v4 proxied) else none

proxy_allowed : validate_target answer parsed site false ≡ allowed (v4 proxied ∷ [])
unfolding validate_target any_blocked is_public is_public_ipv4 is_dns_proxy_fake_ip
proxy_allowed = refl

literal_blocked :
    validate_target answer parsed (record site { host_str = some "198.18.0.7" }) false
    ≡ refused (security "private or local address is blocked")
unfolding validate_target any_blocked is_public is_public_ipv4 is_dns_proxy_fake_ip
literal_blocked = refl

is_public_ipv4-blocks_example :
    is_public_ipv4 proxied ≡ not (any (in_block (value proxied)) reserved)
is_public_ipv4-blocks_example =
    is_public_ipv4-blocks proxied (ground arith) (ground arith) (ground arith) (ground arith)

validate_target-may_fetch_example :
    (one_of ("http" ∷ "https" ∷ []) "https" ≡ true)
    × (str_eq "" "" ≡ true)
    × (is_none {A = String} none ≡ true)
    × (answer "example.org" 443 ≡ found (v4 proxied ∷ []))
    × ((v4 proxied ∷ []) ≢ [])
    × All (λ ip. may_fetch false ip ≡ true) (v4 proxied ∷ [])
validate_target-may_fetch_example =
    validate_target-may_fetch answer parsed site "example.org" 443 (v4 proxied ∷ []) refl refl
      proxy_allowed
