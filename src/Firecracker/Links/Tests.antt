-- ===== src/Firecracker/Links/Tests.antt =====
-- The addresses of a slot of 10.201.0.0/16.
use base_layer.Base.{◌+◌, ◌*◌, ◌/◌, ◌%◌, ◌≡◌, refl, arith}
use base_layer.Firecracker.Links.{
  Ip, base_of_octets, namespace_link_network_for_index, namespace_link_network_for_index-in_block,
}

abbrev base : Ip
base = record { first = 10; second = 201; third = 0; fourth = 0 }

namespace_link_network_for_index-in_block_case :
    (namespace_link_network_for_index (base_of_octets base) 70).root_veth_ip
      ≡ record { first = 10; second = 201; third = 70 / 64; fourth = 70 % 64 * 4 + 1 }
    × (namespace_link_network_for_index (base_of_octets base) 70).ns_veth_ip
      ≡ record { first = 10; second = 201; third = 70 / 64; fourth = 70 % 64 * 4 + 2 }
namespace_link_network_for_index-in_block_case =
    namespace_link_network_for_index-in_block base 70 (omega arith) refl refl (omega arith)
