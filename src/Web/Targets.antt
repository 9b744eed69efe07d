-- ===== src/Web/Targets.antt =====
-- tools/web.rs: where a URL that passed `validate_target` leads.
use h_agent_core.Base.{
  ℕ, String, Bool, true, false, not, ◌&&◌, ◌||◌, List, [], ◌∷◌, Option, some, All, one_of,
  if◌then◌else◌, ◌≡◌, ◌≢◌, refl, ap, sym, ◌∙◌, str_eq,
}
use mathlib.Core.Path.{subst}
use h_agent_core.Web.{
  IpAddr, Url, TargetError, Target, allowed, refused, Lookup, failed, found, is_none, is_public,
  is_dns_proxy_fake_ip, any_blocked, check_addresses, resolve, validate_target,
}

-- An address that may be fetched from: a public one, or for a name what a proxy makes up.
abbrev pub may_fetch : Bool → IpAddr → Bool
may_fetch is_literal ip = is_public ip || (not is_literal && is_dns_proxy_fake_ip ip)

guards_passed :
    (x y : Bool) (e f : TargetError) (t : Target) (ips : List IpAddr)
    → (if not x then refused e else if y then refused f else t) ≡ allowed ips
    → (x ≡ true) × (y ≡ false) × (t ≡ allowed ips)
guards_passed true true e f t ips h = cc
guards_passed true false e f t ips h = (refl, refl, h)
guards_passed false y e f t ips h = cc

or_of : (x y : Bool) → (not x && not y) ≡ false → (x || y) ≡ true
or_of true y h = refl
or_of false true h = refl
or_of false false h = sym h

rest_of : (x y : Bool) → (x || y) ≡ false → (x ≡ false) × (y ≡ false)
rest_of true y h = cc
rest_of false y h = (refl, h)

none_blocked :
    (is_literal : Bool) (ips : List IpAddr)
    → any_blocked is_literal ips ≡ false
    → All (λ ip. may_fetch is_literal ip ≡ true) ips
unfolding any_blocked
none_blocked is_literal [] h = tt
none_blocked is_literal (ip ∷ ips) h =
    let (p, q) = rest_of _ _ h in (or_of _ _ p, none_blocked is_literal ips q)

not-false : (x : Bool) → not x ≡ false → x ≡ true
not-false true h = refl
not-false false h = sym h

answer_kept :
    (blocked : Bool) (e : TargetError) (xs ips : List IpAddr)
    → (if blocked then refused e else allowed xs) ≡ allowed ips
    → (blocked ≡ false) × (xs ≡ ips)
answer_kept true e xs ips h = cc
answer_kept false e xs ips h = (refl, cc)

cons_some : (x : IpAddr) (xs : List IpAddr) → (x ∷ xs) ≢ []
cons_some x xs h = cc

answer_passed :
    (is_literal : Bool) (answer : Lookup) (ips : List IpAddr)
    → check_addresses false is_literal answer ≡ allowed ips
    → (answer ≡ found ips) × (ips ≢ []) × All (λ ip. may_fetch is_literal ip ≡ true) ips
answer_passed is_literal (failed e) ips h = cc
answer_passed is_literal (found []) ips h = cc
answer_passed is_literal (found (x ∷ xs)) ips h =
    let (b, e) = answer_kept _ _ _ _ h in
    (
      ap found e,
      (λ n. absurd (cons_some x xs (e ∙ n))),
      subst (λ l. All (λ ip. may_fetch is_literal ip ≡ true) l) e (none_blocked is_literal _ b),
    )

-- Without `allow_private`, a URL with a host and a port that passes has the scheme `http` or `https` and no credentials,
-- and its addresses are those that the resolver gives for its host and port: at least one, each
-- of which is public, or is in the range that proxies make up when the host is a name.
pub validate_target-may_fetch :
    (lookup : String → ℕ → Lookup) (literal_ip : String → Option IpAddr) (url : Url)
    → (host : String) (port : ℕ) (ips : List IpAddr) → url.host_str ≡ some host
    → url.port_or_known_default ≡ some port
    → validate_target lookup literal_ip url false ≡ allowed ips
    → (one_of ("http" ∷ "https" ∷ []) url.scheme ≡ true)
      × (str_eq url.username "" ≡ true)
      × (is_none url.password ≡ true)
      × (lookup host port ≡ found ips)
      × (ips ≢ [])
      × All (λ ip. may_fetch (not (is_none (literal_ip host))) ip ≡ true) ips
unfolding validate_target
validate_target-may_fetch lookup literal_ip url host port ips p q h =
    let (s, c, t) = guards_passed _ _ _ _ _ _ h in
    let (u, w) = rest_of _ _ c in
    let named : resolve lookup literal_ip false (some host) (some port) ≡ allowed ips =
      ap (λ o. resolve lookup literal_ip false o (some port)) (sym p)
      ∙ (ap (λ o. resolve lookup literal_ip false url.host_str o) (sym q) ∙ t) in
    let (a, b, k) = answer_passed _ _ _ named in (s, not-false _ u, not-false _ w, a, b, k)
