-- ===== src/Xds/Examples.antt =====
-- The sample proxy through the xDS server.
use oooi.Prelude.{
  String, List, ok, ◌≡◌, ◌≢◌, ◌⊎◌, arith, refl, map, show_ℕ, Has, inl, inr, select, ◌==◌,
}
use oooi.Prelude.Assoc.{lookup, insert}
use oooi.Xds.Envoy.{Listener, Cluster}
use oooi.Xds.Build.{build_envoy_resources, cluster_resource, group_from, group_by_port}
use oooi.Xds.Ports.{expected_listener, expected_resources}
use oooi.Xds.Resources.{build_total}
use oooi.Xds.Targets.{targets, targets-Has}
use oooi.Xds.Server.{XdsServer, update_proxy_config}
use oooi.Xds.Versions.{Published, Unmade, NotSet, update_cases}
use oooi.Xds.History.{IsBounded, update-IsBounded, update-fresh}
use oooi.Xds.Sample.{backends, proxy, packs_all, in_order, cache_laws, control, fresh, update-good}

-- The built resources
abbrev built : List Listener × List Cluster
built = expected_resources proxy (group_by_port backends)

built-eq : build_envoy_resources packs_all in_order proxy ≡ ok built
built-eq = build_total packs_all proxy in_order (λ m. refl)

build_total_example : build_envoy_resources packs_all in_order proxy ≡ ok built
build_total_example = build_total packs_all proxy in_order (λ m. refl)

-- The listener on 443
abbrev tls_listener : Listener
tls_listener = expected_listener proxy 443 (select (λ b. b.port == 443) backends)

tls_listener-Has : Has tls_listener built.0
unfolding group_by_port select
tls_listener-Has = inr (inl refl)

konnectivity-target : Has "edge-konnectivity" (targets tls_listener.filter_chains)
unfolding select oooi.Xds.Build.cluster_name
konnectivity-target = inr (inl refl)

targets-Has_example : Has "edge-konnectivity" (map (λ c. c.name) built.1)
targets-Has_example =
    targets-Has packs_all in_order proxy built.0 built.1 tls_listener "edge-konnectivity" built-eq
      tls_listener-Has konnectivity-target

fresh-IsBounded : IsBounded control cache_laws fresh
unfolding lookup
fresh-IsBounded = λ node s e. absurd (ground arith)

update_cases_example :
    Published control cache_laws fresh proxy (update_proxy_config control fresh proxy)
    ⊎ Unmade control cache_laws fresh proxy (update_proxy_config control fresh proxy)
    ⊎ NotSet control cache_laws fresh proxy (update_proxy_config control fresh proxy)
update_cases_example = update_cases control cache_laws fresh proxy

-- After one update.
abbrev once : XdsServer control
once = (update_proxy_config control fresh proxy).0

once-IsBounded : IsBounded control cache_laws once
once-IsBounded = update-IsBounded control cache_laws fresh proxy fresh-IsBounded

update-fresh_example : ◌≢◌ {A = String} "2" "1"
unfolding lookup update_proxy_config build_envoy_resources oooi.Xds.Build.build_ports group_by_port
    oooi.Xds.Build.add_backends oooi.Xds.Build.add_backend oooi.Xds.Build.finish_port
    oooi.Xds.Build.cluster_name insert show_ℕ
update-fresh_example =
    update-fresh control cache_laws once proxy "edge" "1" "2" once-IsBounded (update-good once) refl
      refl
