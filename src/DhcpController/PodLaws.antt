-- ===== src/DhcpController/PodLaws.antt =====
-- The pods of the DHCP server find what the controller creates for them, and their annotation has
-- the prefix length of the network.
use oooi.Prelude.{String, false, [], ◌∷◌, ◌≡◌, refl, inl, inr}
use oooi.Prelude.Paths.{has_char, split-whole}
use Prim.Native.String.{◌∷◌ as cons, ◌++◌ as append}
use oooi.Api.Dhcp.{DhcpServer}
use oooi.Workloads.Mounts.{Fits}
use oooi.DhcpController.Config.{new_dhcp_config_map}
use oooi.DhcpController.Objects.{new_dhcp_pvc, new_dhcp_service_account}
use oooi.DhcpController.Pod.{new_dhcp_deployment, get_netmask_bits}

pub new_dhcp_deployment-Fits :
    (dhcp : DhcpServer)
    → Fits
        (new_dhcp_config_map dhcp)
        ((new_dhcp_pvc dhcp).metadata ∷ [])
        (new_dhcp_service_account dhcp).metadata
        (new_dhcp_deployment dhcp)
unfolding new_dhcp_deployment new_dhcp_config_map new_dhcp_pvc new_dhcp_service_account
new_dhcp_deployment-Fits dhcp = (
  refl,
  refl,
  ((refl, ((_, inl refl), tt)), ((_, inl refl, refl), tt)),
  (((_, inl refl, refl), ((_, inr (inl refl), refl), tt)), tt),
  (refl, (refl, (refl, tt))),
)

get_netmask_bits-plain : (cidr : String) → has_char "/" cidr ≡ false → get_netmask_bits cidr ≡ "24"
unfolding get_netmask_bits
get_netmask_bits-plain cidr plain = rw (split-whole "/" cidr plain) refl
