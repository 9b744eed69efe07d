-- ===== src/Web.antt =====
-- tools/web.rs: which addresses the web tools may fetch from. An IPv4 address is its four octets,
-- an IPv6 address its eight segments. What the crate `url` and the resolver say of a URL is data.
pub mod Blocks
pub mod Targets
mod Tests
use h_agent_core.Base.{
  ℕ, ◌+◌, ◌*◌, ◌/◌, ◌%◌, String, Bool, true, false, not, ◌&&◌, ◌||◌, List, [], ◌∷◌, Option, none,
  some, leb, ◌==◌, if◌then◌else◌, any, one_of, str_eq,
}

pub record Ipv4Addr : Type 0 where
  pub a : ℕ
  pub b : ℕ
  pub c : ℕ
  pub d : ℕ

pub record Ipv6Addr : Type 0 where
  pub s0 : ℕ
  pub s1 : ℕ
  pub s2 : ℕ
  pub s3 : ℕ
  pub s4 : ℕ
  pub s5 : ℕ
  pub s6 : ℕ
  pub s7 : ℕ

pub data IpAddr : Type 0 where
  v4 : Ipv4Addr → IpAddr
  v6 : Ipv6Addr → IpAddr

-- The pattern `low..=high`.
abbrev pub between : ℕ → ℕ → ℕ → Bool
between low high x = leb low x && leb x high

abbrev pub is_one_of : List Bool → Bool
is_one_of tests = any (λ t. t) tests

unfoldable pub is_public_ipv4 : Ipv4Addr → Bool
is_public_ipv4 ip = not (
    is_one_of (
      (ip.a == 0)
      ∷ (ip.a == 10)
      ∷ (ip.a == 100 && between 64 127 ip.b)
      ∷ (ip.a == 127)
      ∷ (ip.a == 169 && ip.b == 254)
      ∷ (ip.a == 172 && between 16 31 ip.b)
      ∷ (ip.a == 192 && (ip.b == 0 && ip.c == 0))
      ∷ (ip.a == 192 && (ip.b == 0 && ip.c == 2))
      ∷ (ip.a == 192 && ip.b == 168)
      ∷ (ip.a == 198 && between 18 19 ip.b)
      ∷ (ip.a == 198 && (ip.b == 51 && ip.c == 100))
      ∷ (ip.a == 203 && (ip.b == 0 && ip.c == 113))
      ∷ (between 224 255 ip.a)
      ∷ []))

-- `Ipv6Addr::to_ipv4_mapped`: the addresses `::ffff:a.b.c.d`.
unfoldable pub to_ipv4_mapped : Ipv6Addr → Option Ipv4Addr
to_ipv4_mapped ip =
    if ip.s0 == 0 && (ip.s1 == 0 && (ip.s2 == 0 && (ip.s3 == 0 && (ip.s4 == 0 && ip.s5 == 65535))))
    then some (record { a = ip.s6 / 256; b = ip.s6 % 256; c = ip.s7 / 256; d = ip.s7 % 256 })
    else none

-- All segments but the last are zero, and the last is this.
abbrev low_address : ℕ → Ipv6Addr → Bool
low_address last ip =
    ip.s0 == 0
    && (ip.s1 == 0
        && (ip.s2 == 0
            && (ip.s3 == 0 && (ip.s4 == 0 && (ip.s5 == 0 && (ip.s6 == 0 && ip.s7 == last))))))

abbrev public_mapped : Option Ipv4Addr → Bool
public_mapped none = true
public_mapped (some ip) = is_public_ipv4 ip

-- The masks `0xfe00` and `0xffc0` clear the lowest 9 and 6 bits of a segment.
unfoldable pub is_public : IpAddr → Bool
is_public (v4 ip) = is_public_ipv4 ip
is_public (v6 ip) =
    not (low_address 1 ip)
    && (not (low_address 0 ip)
        && (not (ip.s0 / 256 == 255)
            && (not (ip.s0 / 512 * 512 == 64512)
                && (not (ip.s0 / 64 * 64 == 65152)
                    && (not (ip.s0 / 64 * 64 == 65216)
                        && (not (ip.s0 == 8193 && ip.s1 == 3512)
                            && public_mapped (to_ipv4_mapped ip)))))))

unfoldable pub is_dns_proxy_fake_ip : IpAddr → Bool
is_dns_proxy_fake_ip (v4 ip) = ip.a == 198 && between 18 19 ip.b
is_dns_proxy_fake_ip (v6 ip) = false

pub record Url : Type 0 where
  pub scheme : String
  pub username : String
  pub password : Option String
  pub host_str : Option String
  pub port_or_known_default : Option ℕ

pub data TargetError : Type 0 where
  security execution : String → TargetError

pub data Target : Type 0 where
  allowed : List IpAddr → Target
  refused : TargetError → Target

-- What the resolver answers.
pub data Lookup : Type 0 where
  failed : String → Lookup
  found : List IpAddr → Lookup

abbrev pub is_none {ℓ} : {A : Type ℓ} → Option A → Bool
is_none none = true
is_none (some a) = false

-- The loop over the addresses, with whether the host is written as an address.
unfoldable pub any_blocked : Bool → List IpAddr → Bool
any_blocked is_literal addresses =
    any (λ ip. not (is_public ip) && not (not is_literal && is_dns_proxy_fake_ip ip)) addresses

abbrev pub check_addresses : Bool → Bool → Lookup → Target
check_addresses allow_private is_literal (failed error) = refused (execution error)
check_addresses allow_private is_literal (found []) = refused (execution "host did not resolve")
check_addresses allow_private is_literal (found (ip ∷ ips)) =
    if not allow_private && any_blocked is_literal (ip ∷ ips)
    then refused (security "private or local address is blocked")
    else allowed (ip ∷ ips)

-- From the host and the port on.
abbrev pub resolve :
    (String → ℕ → Lookup) → (String → Option IpAddr) → Bool → Option String → Option ℕ → Target
resolve lookup literal_ip allow_private none port = refused (security "URL has no host")
resolve lookup literal_ip allow_private (some host) none =
    refused (security "URL has no valid port")
resolve lookup literal_ip allow_private (some host) (some port) =
    check_addresses allow_private (not (is_none (literal_ip host))) (lookup host port)

-- `lookup` is what the resolver answers, `literal_ip` what `host.parse::<IpAddr>()` gives. The
-- address that an error names is left out.
unfoldable pub validate_target :
    (String → ℕ → Lookup) → (String → Option IpAddr) → Url → Bool → Target
validate_target lookup literal_ip url allow_private =
    if not (one_of ("http" ∷ "https" ∷ []) url.scheme)
    then refused (security "only HTTP and HTTPS URLs are allowed")
    else if not (str_eq url.username "") || not (is_none url.password)
    then refused (security "credentials in URLs are not allowed")
    else resolve lookup literal_ip allow_private url.host_str url.port_or_known_default
