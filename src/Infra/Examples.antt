-- ===== src/Infra/Examples.antt =====
-- An Infra with all three components, reconciled twice on the API server in memory.
use oooi.Prelude.{true, false, List, [], ◌∷◌, ok, ◌≡◌, ◌⊎◌, refl, select, ◌==◌}
use oooi.Api.Meta.{NamespacedName, named}
use oooi.Api.Infra.{Infra}
use oooi.Infra.Cluster.{World}
use oooi.Infra.Desired.{proxy_server_for_infra}
use oooi.Infra.Reconcile.{reconcile, ready_status, update_infra_status}
use oooi.Infra.Steps.{AllSettled, DhcpDone, DnsDone}
use oooi.Infra.Runs.{Converged, reconcile-Converged, reconcile-ordered}
use oooi.Infra.Repeat.{reconcile-again}
use oooi.Infra.Sample.{api, api_laws, find}
use oooi.Xds.Envoy.{Listener, Cluster}
use oooi.Xds.Build.{Groups, group_by_port}
use oooi.Xds.Ports.{expected_listener, expected_resources}

abbrev pub infra : Infra
infra = record {
  metadata = named "lab" "guests";
  spec = record {
    network_config = record {
      cidr = "10.0.0.0/24";
      gateway = "10.0.0.1";
      network_attachment_definition = "vlan";
      network_attachment_namespace = "";
      dns_servers = "8.8.8.8" ∷ [];
    };
    infra_components = record {
      dhcp = record {
        enabled = true;
        server_ip = "10.0.0.2";
        range_start = "10.0.0.100";
        range_end = "10.0.0.200";
        lease_time = "1h";
        image = "";
      };
      dns = record {
        enabled = true;
        server_ip = "10.0.0.3";
        base_domain = "example.com";
        cluster_name = "lab";
        image = "";
      };
      proxy = record {
        enabled = true;
        server_ip = "10.0.0.4";
        internal_proxy_service = "172.30.0.9";
        control_plane_namespace = "clusters-lab";
        api_server_service = "";
        proxy_image = "";
        manager_image = "";
      };
    };
  };
  status = record {
    conditions = [];
    component_status = record { dhcp_ready = false; dns_ready = false; proxy_ready = false };
    observed_generation = 0;
  };
}

-- The same Infra without DHCP.
abbrev without_dhcp : Infra
without_dhcp =
    let parts = infra.spec.infra_components in
    record infra {
      spec = record infra.spec {
        infra_components = record parts { dhcp = record parts.dhcp { enabled = false } };
      };
    }

abbrev holding : Infra → World api
holding i = record {
  infras = i ∷ [];
  dhcp_servers = [];
  dns_servers = [];
  proxy_servers = [];
  network_policies = [];
}

abbrev request : NamespacedName
request = record { namespace = "guests"; name = "lab" }

abbrev first : World api
first = (reconcile api 100 request (holding infra)).1

found : api.infras.get request (holding infra).infras ≡ ok infra
unfolding find
found = refl

settled : AllSettled api api_laws infra
settled = (refl, refl, refl)

succeeded : (reconcile api 100 request (holding infra)).0 ≡ ok tt
unfolding reconcile find oooi.Infra.Sample.create_in oooi.Infra.Sample.update_status_in
succeeded = refl

reconcile-Converged_example : Converged api api_laws infra first
reconcile-Converged_example =
    reconcile-Converged api api_laws 100 request infra (holding infra) found settled succeeded

reconcile-ordered_example :
    let w = holding infra in
    (DhcpDone api api_laws infra first
      ⊎ ((first.dns_servers ≡ w.dns_servers)
          × (first.proxy_servers ≡ w.proxy_servers)
          × (first.network_policies ≡ w.network_policies)
          × (first.infras ≡ w.infras)))
    × ((DhcpDone api api_laws infra first × DnsDone api api_laws infra first)
        ⊎ ((first.proxy_servers ≡ w.proxy_servers)
            × (first.network_policies ≡ w.network_policies)
            × (first.infras ≡ w.infras)))
    × (Converged api api_laws infra first ⊎ (first.infras ≡ w.infras))
reconcile-ordered_example =
    reconcile-ordered api api_laws 100 request infra (holding infra) found settled

reconcile-again_example :
    reconcile api 200 request first
    ≡ update_infra_status api 200 (record infra { status = ready_status infra 100 }) first
reconcile-again_example =
    reconcile-again api api_laws 100 200 request infra (holding infra) found settled succeeded

found_without : api.infras.get request (holding without_dhcp).infras ≡ ok without_dhcp
unfolding find
found_without = refl

abbrev in_order : Groups → Groups
in_order gs = gs

abbrev built : List Listener × List Cluster
built =
    expected_resources (proxy_server_for_infra infra)
      (group_by_port (proxy_server_for_infra infra).spec.backends)

abbrev tls_listener : Listener
tls_listener =
    let proxy = proxy_server_for_infra infra in
    expected_listener proxy 443 (select (λ b. b.port == 443) proxy.spec.backends)
