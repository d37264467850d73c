-- ===== src/Firecracker/Links.antt =====
-- The addresses of the veth pair of a slot: `ipFromNumber` and `namespaceLinkNetworkForIndex`. A base is
-- the 32 bits that `parseCidrBase` makes of four octets, read without a sign; `>>> 24` and the like read
-- 32 bits of their operand, so a sum is taken modulo 2³².
mod Tests
use base_layer.Base.{ℕ, ◌+◌, ◌*◌, ◌/◌, ◌%◌, ◌≤◌, ◌<◌, ◌≡◌, ◌≢◌, ◌⊎◌, arith, ap}

-- An address as its four octets, which the source joins by dots.
pub record Ip : Type 0 where
  pub first : ℕ
  pub second : ℕ
  pub third : ℕ
  pub fourth : ℕ

-- `(a << 24) | (b << 16) | (c << 8) | d`, for octets
unfoldable pub base_of_octets : Ip → ℕ
base_of_octets ip = ip.first * 16777216 + ip.second * 65536 + ip.third * 256 + ip.fourth

unfoldable pub ip_from_number : ℕ → Ip
ip_from_number value =
    let bits = value % 4294967296 in
    record {
      first = bits / 16777216 % 256;
      second = bits / 65536 % 256;
      third = bits / 256 % 256;
      fourth = bits % 256;
    }

pub record LinkNetwork : Type 0 where
  pub root_veth_ip : Ip
  pub ns_veth_ip : Ip

unfoldable pub namespace_link_network_for_index : ℕ → ℕ → LinkNetwork
unfolding ip_from_number
namespace_link_network_for_index base index = record {
  root_veth_ip = ip_from_number (base + index * 4 + 1);
  ns_veth_ip = ip_from_number (base + index * 4 + 2);
}

abbrev pub IsOctets : Ip → Type 0
IsOctets ip = (ip.first < 256) × (ip.second < 256) × (ip.third < 256) × (ip.fourth < 256)

-- Where the base is a network of 16 bits, with zeros for the rest, the two addresses of a slot below
-- 16384 lie in that network and in one block of four of it, the second and the third of the block.
pub namespace_link_network_for_index-in_block :
    (ip : Ip) (index : ℕ)
    → IsOctets ip
    → ip.third ≡ 0
    → ip.fourth ≡ 0
    → index < 16384
    → (namespace_link_network_for_index (base_of_octets ip) index).root_veth_ip ≡ record {
      first = ip.first;
      second = ip.second;
      third = index / 64;
      fourth = index % 64 * 4 + 1;
    }
      × (namespace_link_network_for_index (base_of_octets ip) index).ns_veth_ip ≡ record {
        first = ip.first;
        second = ip.second;
        third = index / 64;
        fourth = index % 64 * 4 + 2;
      }
unfolding namespace_link_network_for_index base_of_octets
namespace_link_network_for_index-in_block ip index o z3 z4 h = (ground arith, ground arith)
