-- ===== src/Web/Blocks.antt =====
-- tools/web.rs: the addresses that are not public, as blocks of the 32-bit address space.
use h_agent_core.Base.{
  ℕ, suc, ◌-◌, ◌+◌, ◌*◌, ◌<◌, Bool, not, ◌&&◌, ◌||◌, List, [], ◌∷◌, leb, ltb, ◌==◌, any, ◌≡◌, refl,
  ap, arith,
}
use h_agent_core.Web.{Ipv4Addr, between, is_public_ipv4}

-- The address as a number.
abbrev pub value : Ipv4Addr → ℕ
value ip = ip.a * 16777216 + ip.b * 65536 + ip.c * 256 + ip.d

-- A block is its first address and its size.
abbrev pub in_block : ℕ → ℕ × ℕ → Bool
in_block v (first, size) = leb first v && ltb v (first + size)

-- 0/8, 10/8, 100.64/10, 127/8, 169.254/16, 172.16/12, 192.0.0/24, 192.0.2/24, 192.168/16,
-- 198.18/15, 198.51.100/24, 203.0.113/24, and 224/3.
abbrev pub reserved : List (ℕ × ℕ)
reserved =
    (0, 16777216)
    ∷ (167772160, 16777216)
    ∷ (1681915904, 4194304)
    ∷ (2130706432, 16777216)
    ∷ (2851995648, 65536)
    ∷ (2886729728, 1048576)
    ∷ (3221225472, 256)
    ∷ (3221225984, 256)
    ∷ (3232235520, 65536)
    ∷ (3323068416, 131072)
    ∷ (3325256704, 256)
    ∷ (3405803776, 256)
    ∷ (3758096384, 536870912)
    ∷ []

by_first :
    (x a b c d : ℕ)
    → a < 256
    → b < 256
    → c < 256
    → d < 256
    → (a == x) ≡ in_block (a * 16777216 + b * 65536 + c * 256 + d) (x * 16777216, 16777216)
by_first x a b c d p q r s = ground arith

by_second :
    (x low high a b c d : ℕ)
    → a < 256
    → b < 256
    → c < 256
    → d < 256
    → high < 256
    → (a == x && between low high b)
      ≡ in_block
          (a * 16777216 + b * 65536 + c * 256 + d)
          (x * 16777216 + low * 65536, (suc high - low) * 65536)
by_second x low high a b c d p q r s t = ground arith

by_pair :
    (x y a b c d : ℕ)
    → a < 256
    → b < 256
    → c < 256
    → d < 256
    → y < 256
    → (a == x && b == y)
      ≡ in_block (a * 16777216 + b * 65536 + c * 256 + d) (x * 16777216 + y * 65536, 65536)
by_pair x y a b c d p q r s t = ground arith

by_third :
    (x y z a b c d : ℕ)
    → a < 256
    → b < 256
    → c < 256
    → d < 256
    → y < 256
    → z < 256
    → (a == x && (b == y && c == z))
      ≡ in_block (a * 16777216 + b * 65536 + c * 256 + d) (x * 16777216 + y * 65536 + z * 256, 256)
by_third x y z a b c d p q r s t u = ground arith

by_multicast :
    (a b c d : ℕ)
    → a < 256
    → b < 256
    → c < 256
    → d < 256
    → between 224 255 a ≡ in_block (a * 16777216 + b * 65536 + c * 256 + d) (3758096384, 536870912)
by_multicast a b c d p q r s = ground arith

or_ap : {x y s t : Bool} → x ≡ y → s ≡ t → (x || s) ≡ (y || t)
or_ap p q = cc

-- An address of octets below 256 is public exactly when, as a 32-bit number, it lies in none
-- of the reserved blocks.
pub is_public_ipv4-blocks :
    (ip : Ipv4Addr)
    → ip.a < 256
    → ip.b < 256
    → ip.c < 256
    → ip.d < 256
    → is_public_ipv4 ip ≡ not (any (in_block (value ip)) reserved)
unfolding is_public_ipv4
is_public_ipv4-blocks ip p q r s = ap not (
    or_ap (by_first 0 _ _ _ _ p q r s) (
      or_ap (by_first 10 _ _ _ _ p q r s) (
        or_ap (by_second 100 64 127 _ _ _ _ p q r s (ground arith)) (
          or_ap (by_first 127 _ _ _ _ p q r s) (
            or_ap (by_pair 169 254 _ _ _ _ p q r s (ground arith)) (
              or_ap (by_second 172 16 31 _ _ _ _ p q r s (ground arith)) (
                or_ap (by_third 192 0 0 _ _ _ _ p q r s (ground arith) (ground arith)) (
                  or_ap (by_third 192 0 2 _ _ _ _ p q r s (ground arith) (ground arith)) (
                    or_ap (by_pair 192 168 _ _ _ _ p q r s (ground arith)) (
                      or_ap (by_second 198 18 19 _ _ _ _ p q r s (ground arith)) (
                        or_ap (by_third 198 51 100 _ _ _ _ p q r s (ground arith) (ground arith)) (
                          or_ap (by_third 203 0 113 _ _ _ _ p q r s (ground arith) (ground arith))
                            (or_ap (by_multicast _ _ _ _ p q r s) refl)))))))))))))
