-- ===== src/DhcpController/Objects.antt =====
-- The claim for the leases, the service account, and the objects that grant it its rights.
use oooi.Prelude.{String, [], ◌∷◌, concat}
use oooi.Api.Dhcp.{DhcpServer}
use oooi.Api.Rbac.{PersistentVolumeClaim, ServiceAccount, Role, RoleBinding}
use oooi.Workloads.Builders.{suffixed, account_subject}

unfoldable pub new_dhcp_pvc : DhcpServer → PersistentVolumeClaim
new_dhcp_pvc dhcp = record {
  metadata = suffixed dhcp.metadata "-dhcp-leases" dhcp.metadata.name;
  access_modes = "ReadWriteOnce" ∷ [];
  storage = "25Mi";
}

unfoldable pub new_dhcp_service_account : DhcpServer → ServiceAccount
new_dhcp_service_account dhcp = record {
  metadata = suffixed dhcp.metadata "-dhcp" dhcp.metadata.name;
}

-- Cluster-scoped: without a namespace.
unfoldable pub new_kube_virt_cluster_role : DhcpServer → Role
new_kube_virt_cluster_role dhcp = record {
  metadata = record (suffixed dhcp.metadata "-kubevirt-reader" dhcp.metadata.name) {
    namespace = "";
  };
  rules =
      record {
        api_groups = "kubevirt.io" ∷ [];
        resources = "virtualmachineinstances" ∷ [];
        verbs = "get" ∷ "list" ∷ "watch" ∷ [];
      }
      ∷ [];
}

unfoldable pub new_kube_virt_cluster_role_binding : DhcpServer → String → RoleBinding
new_kube_virt_cluster_role_binding dhcp account = record {
  metadata = record (suffixed dhcp.metadata "-kubevirt-reader" dhcp.metadata.name) {
    namespace = "";
  };
  role_ref = record {
    api_group = "rbac.authorization.k8s.io";
    kind = "ClusterRole";
    name = concat (dhcp.metadata.name ∷ "-kubevirt-reader" ∷ []);
  };
  subjects = account_subject account dhcp.metadata.namespace ∷ [];
}

unfoldable pub new_scc_role_binding : DhcpServer → String → RoleBinding
new_scc_role_binding dhcp account = record {
  metadata = suffixed dhcp.metadata "-privileged-scc" dhcp.metadata.name;
  role_ref = record {
    api_group = "rbac.authorization.k8s.io";
    kind = "ClusterRole";
    name = "system:openshift:scc:privileged";
  };
  subjects = account_subject account dhcp.metadata.namespace ∷ [];
}
