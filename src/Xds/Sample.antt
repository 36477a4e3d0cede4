-- ===== src/Xds/Sample.antt =====
-- A proxy with three backends on two ports, and a cache that keeps the last snapshot of each node.
use oooi.Prelude.{◌===◌, ℕ, String, Bool, true, false, List, [], ◌∷◌, some, ok, ◌≡◌, arith, refl}
use oooi.Prelude.Assoc.{Assoc, lookup, insert, lookup-insert, lookup-insert_self}
use oooi.Api.Meta.{named}
use oooi.Api.Proxy.{ProxyBackend, ProxyServer}
use oooi.Api.Proxy
use oooi.Xds.Envoy.{Message}
use oooi.Xds.Build.{Groups, build_envoy_resources, cluster_resource, group_from, group_by_port}
use oooi.Xds.Server.{SnapshotCache, Control, XdsServer, update_proxy_config}
use oooi.Xds.Versions.{LawfulCache}

abbrev pub to_service : String → String → ℕ → String → ProxyBackend
to_service name host port service = record {
  name = name;
  hostname = host;
  alternate_hostnames = [];
  port = port;
  target_service = service;
  target_port = 8443;
  target_namespace = "hcp";
  protocol = "TCP";
  timeout_seconds = 30;
}

abbrev pub backends : List ProxyBackend
backends =
    to_service "api" "api.a.b" 6443 "kube-apiserver"
    ∷ to_service "oauth" "oauth.a.b" 443 "oauth-openshift"
    ∷ to_service "konnectivity" "konnectivity.a.b" 443 "konnectivity-server"
    ∷ []

abbrev pub proxy_named : String → ProxyServer
proxy_named name = record {
  metadata = named name "infra";
  spec = record {
    network_config = record {
      server_ip = "10.0.0.5";
      network_attachment_name = "vlan";
      network_attachment_namespace = "infra";
    };
    backends = backends;
    proxy_image = "";
    manager_image = "";
    port = 443;
    xds_port = 18000;
    log_level = "info";
  };
  status = Proxy.no_status;
}

abbrev pub proxy : ProxyServer
proxy = proxy_named "edge"

abbrev pub packs_all : Message → Bool
packs_all m = true

abbrev pub in_order : Groups → Groups
in_order gs = gs

-- Snapshots are their version; the cache maps a node to its last one.
abbrev pub cache : SnapshotCache
cache = record {
  Snapshot = String;
  Cache = Assoc String;
  new_snapshot = λ version clusters listeners. some version;
  set_snapshot = λ node snapshot store. (true, insert node snapshot store);
}

pub same_version : (v s : String) → some v ≡ some s → s ≡ v
same_version v s e = ground arith

pub insert-apart :
    (node other s : String) (store : Assoc String)
    → (node === other) ≡ false
    → lookup other (insert node s store) ≡ lookup other store
insert-apart node other s store e = ground (arith, lookup-insert node other s store)

pub not_refused : true ≡ false → ⊥
not_refused e = ground arith

abbrev pub cache_laws : LawfulCache cache
cache_laws = record {
  get_snapshot = λ node store. lookup node store;
  version_of = λ s. s;
  version_new = λ v cs ls s e. same_version v s e;
  taken = λ node s store e. lookup-insert_self node s store;
  apart = λ node other s store e. insert-apart node other s store e;
  failed = λ node s store e. absurd (not_refused e);
}

abbrev pub control : Control
control = record { packs = packs_all; order = in_order; cache = cache }

-- A server that has published nothing.
abbrev pub fresh : XdsServer control
fresh = record { store = []; proxies = []; snap_version = 0 }

pub update-good : (xs : XdsServer control) → (update_proxy_config control xs proxy).1 ≡ ok tt
unfolding update_proxy_config build_envoy_resources oooi.Xds.Build.build_ports group_by_port
    oooi.Xds.Build.add_backends oooi.Xds.Build.add_backend oooi.Xds.Build.finish_port
    oooi.Xds.Build.cluster_name
update-good xs = refl
