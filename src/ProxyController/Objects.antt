-- ===== src/ProxyController/Objects.antt =====
-- The service account of a proxy and what it may do.
use oooi.Prelude.{String, [], ◌∷◌, concat}
use oooi.Api.Proxy.{ProxyServer}
use oooi.Api.Rbac.{ServiceAccount, Role, RoleBinding}
use oooi.Workloads.Builders.{suffixed, account_subject}

unfoldable pub new_proxy_service_account : ProxyServer → ServiceAccount
new_proxy_service_account proxy = record {
  metadata = suffixed proxy.metadata "-proxy" "proxy-server";
}

unfoldable pub new_proxy_role : ProxyServer → Role
new_proxy_role proxy = record {
  metadata = suffixed proxy.metadata "-proxy" "proxy-server";
  rules =
      record {
        api_groups = "hostedcluster.densityops.com" ∷ [];
        resources = "proxyservers" ∷ [];
        verbs = "get" ∷ "list" ∷ "watch" ∷ [];
      }
      ∷ [];
}

unfoldable pub new_proxy_role_binding : ProxyServer → RoleBinding
new_proxy_role_binding proxy =
    let name = concat (proxy.metadata.name ∷ "-proxy" ∷ []) in
    record {
      metadata = suffixed proxy.metadata "-proxy" "proxy-server";
      role_ref = record { api_group = "rbac.authorization.k8s.io"; kind = "Role"; name = name };
      subjects = account_subject name proxy.metadata.namespace ∷ [];
    }

unfoldable pub new_privileged_role_binding : ProxyServer → String → RoleBinding
new_privileged_role_binding proxy account = record {
  metadata = suffixed proxy.metadata "-privileged-scc" proxy.metadata.name;
  role_ref = record {
    api_group = "rbac.authorization.k8s.io";
    kind = "ClusterRole";
    name = "system:openshift:scc:privileged";
  };
  subjects = account_subject account proxy.metadata.namespace ∷ [];
}
