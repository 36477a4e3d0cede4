-- ===== src/DnsController/Examples.antt =====
-- A DNSServer with an internal proxy, in a cluster that has nothing else.
use oooi.Prelude.{String, true, false, [], ◌∷◌, none, ok, err, ◌≡◌, refl, eq_iff, arith}
use oooi.Prelude.Paths.{has_char, Word}
use oooi.Api.Meta.{named, key_of}
use oooi.Api.Dns.{DnsServer, DnsStaticEntry}
use oooi.Api.Dns
use oooi.Api.Pods.{Deployment}
use oooi.Infra.Cluster.{refused}
use oooi.Infra.Sample.{find, update_in}
use oooi.Workloads.Kinds.{ClusterState, ClusterApi}
use oooi.Workloads.Sample.{cluster, cluster_laws, empty_cluster}
use oooi.DnsController.Reconcile.{ensure_dns_pods}
use oooi.DnsController.Upgrade.{ensure_dns_pods-stale}
use oooi.DnsController.Corefile.{new_dns_config_map}
use oooi.DnsController.Pod.{new_dns_deployment}
use oooi.DnsController.Hosts.{read_hosts, Plain, Plain-Named}
use oooi.DnsController.Sample.{dotted}
use oooi.DnsController.Refines.{answers, addresses, Uncommented, corefile-refines}
use oooi.DnsController.Views.{
  multus, default, address_in, lookup_host, HasViews, network, corefile-unanswered,
}

abbrev server : DnsServer
server = record {
  metadata = named "lab-dns" "guests";
  spec = record {
    network_config = record {
      server_ip = "10.0.0.3";
      proxy_ip = "10.0.0.5";
      internal_proxy_ip = "172.30.0.9";
      secondary_network_cidr = "";
      network_attachment_name = "vlan";
      network_attachment_namespace = "guests";
      dns_port = 0;
    };
    hosted_cluster_domain = "lab.example.com";
    static_entries =
        record { hostname = "api.lab"; ip = "10.0.0.5" }
        ∷ record { hostname = "oauth.lab"; ip = "10.0.0.5" }
        ∷ [];
    upstream_dns = "1.1.1.1" ∷ "9.9.9.9" ∷ [];
    image = "oooi";
    reload_interval = "";
    cache_ttl = "";
  };
  status = Dns.no_status;
}

abbrev at_first : ClusterState cluster
at_first = record empty_cluster { dns_servers = server ∷ [] }

-- The API server refuses to create the Service.
abbrev denied : ClusterApi
denied = record cluster {
  services = record cluster.services { create = λ o os. (err refused, os) };
}

abbrev denied_start : ClusterState denied
denied_start = record {
  dhcp_servers = [];
  dns_servers = server ∷ [];
  proxy_servers = [];
  config_maps = [];
  claims = [];
  service_accounts = [];
  roles = [];
  role_bindings = [];
  cluster_roles = [];
  cluster_role_bindings = [];
  deployments = [];
  services = [];
}

internal_good : dotted "172.30.0.9" ≡ true
unfolding dotted
internal_good = refl

internal_text : Word "172.30.0.9"
unfolding has_char
internal_text = ((λ e. ground (arith, eq_iff "172.30.0.9" "")), refl, refl)

plain : Plain dotted server.spec.static_entries
unfolding has_char dotted
plain = (
  (
    refl,
    ((λ e. ground (arith, eq_iff "10.0.0.5" "")), refl, refl),
    ((λ e. ground (arith, eq_iff "api.lab" "")), refl, refl),
  ),
  (
    (
      refl,
      ((λ e. ground (arith, eq_iff "10.0.0.5" "")), refl, refl),
      ((λ e. ground (arith, eq_iff "oauth.lab" "")), refl, refl),
    ),
    tt,
  ),
)

uncommented : Uncommented server.spec.static_entries
unfolding has_char
uncommented = ((refl, refl), ((refl, refl), tt))

bare : has_char "#" server.spec.network_config.internal_proxy_ip ≡ false
unfolding has_char
bare = refl

-- Names that are in lower case already.
abbrev as_is : String → String
as_is name = name

corefile-refines_example :
    (text : String) × (m : String) × (d : String) × ((new_dns_config_map server).entries
      ≡ ("Corefile", text) ∷ [])
    × HasViews text (network server) m d
    × (has_char "#" m ≡ false)
    × (has_char "#" d ≡ false)
    × (answers as_is "oauth.lab" (read_hosts dotted m)
        ≡ addresses as_is (address_in server multus) server.spec.static_entries "oauth.lab")
    × (answers as_is "oauth.lab" (read_hosts dotted d)
        ≡ addresses as_is (address_in server default) server.spec.static_entries "oauth.lab")
corefile-refines_example =
    corefile-refines dotted as_is server "oauth.lab" internal_good internal_text bare plain
      uncommented

-- The pods of an older image, under the name of the server.
abbrev older : Deployment
older = new_dns_deployment (record server { spec = record server.spec { image = "oooi:old" } })

abbrev running : ClusterState cluster
running = record at_first { deployments = older ∷ [] }

older_found :
    cluster.deployments.get (key_of (new_dns_deployment server).metadata) running.deployments
    ≡ ok older
unfolding find new_dns_deployment
older_found = refl

older_kept : (ensure_dns_pods cluster true server running).0 ≡ ok tt
unfolding ensure_dns_pods find update_in new_dns_deployment oooi.Retry.Loop.create_or_update
older_kept = refl

ensure_dns_pods-stale_example :
    (o : Deployment) × (cluster.deployments.get
        (key_of (new_dns_deployment server).metadata)
        (ensure_dns_pods cluster true server running).1.deployments
      ≡ ok o)
    × (o.spec ≡ older.spec)
ensure_dns_pods-stale_example =
    ensure_dns_pods-stale cluster cluster_laws true server running older older_found older_kept

-- The internal proxy by its name.
abbrev by_name : DnsServer
by_name = record server {
  spec = record server.spec {
    network_config = record server.spec.network_config { internal_proxy_ip = "envoy.infra.svc" };
  };
}

name_text : Word "envoy.infra.svc"
unfolding has_char
name_text = ((λ e. ground (arith, eq_iff "envoy.infra.svc" "")), refl, refl)

not_dotted : dotted "envoy.infra.svc" ≡ false
unfolding dotted
not_dotted = refl

corefile-unanswered_example :
    (text : String) × (m : String) × (d : String) × ((new_dns_config_map by_name).entries
      ≡ ("Corefile", text) ∷ [])
    × HasViews text (network by_name) m d
    × (lookup_host "oauth.lab" (read_hosts dotted d) ≡ none)
corefile-unanswered_example =
    corefile-unanswered dotted by_name "oauth.lab" not_dotted name_text
      (Plain-Named dotted server.spec.static_entries plain)
