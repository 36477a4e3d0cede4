-- ===== src/ProxyController/Bootstrap.antt =====
-- The documents that Envoy starts from: newEnvoyBootstrapConfigMap of the ProxyServer controller,
-- and internal/proxy/envoy/config.go. The texts are those of the source's formats, their pieces
-- between the arguments written out.
use oooi.Prelude.{ℕ, String, [], ◌∷◌, concat, show_ℕ, or_port}
use oooi.Api.Proxy.{ProxyServer}
use oooi.Api.Rbac.{ConfigMap}
use oooi.Workloads.Builders.{suffixed}

-- The pieces that the two bootstrap documents have in common.
abbrev pub node_text : String → String → String
node_text id cluster =
    concat
      ("{\n  \"node\": {\n    " ∷ "\"id\": \"" ∷ id ∷ "\",\n    \"cluster\": \"" ∷ cluster ∷ [])

-- From the node to the address of the xDS server, and what follows its port.
abbrev pub resources_head : String
resources_head = concat (
    "\"\n  },\n  \"dynamic_resources\": {\n    \"ads_config\": {\n      \"api_type\": \"GRPC\",\n"
    ∷ "      \"transport_api_version\": \"V3\",\n      \"grpc_services\": [\n        {\n"
    ∷ "          \"envoy_grpc\": {\n            \"cluster_name\": \"xds_cluster\"\n          }\n"
    ∷ "        }\n      ]\n    },\n    \"cds_config\": {\n      \"resource_api_version\": \"V3\",\n"
    ∷ "      \"ads\": {}\n    },\n    \"lds_config\": {\n      \"resource_api_version\": \"V3\",\n"
    ∷ "      \"ads\": {}\n    }\n  },\n  \"static_resources\": {\n    \"clusters\": [\n      {\n"
    ∷ "        \"name\": \"xds_cluster\",\n        \"connect_timeout\": \"5s\",\n"
    ∷ "        \"type\": \"STATIC\",\n        \"typed_extension_protocol_options\": {\n"
    ∷ "          \"envoy.extensions.upstreams.http.v3.HttpProtocolOptions\": {\n"
    ∷ "            \"@type\": \"type.googleapis.com/envoy.extensions.upstreams.http.v3.HttpProtocolOptions\",\n"
    ∷ "            \"explicit_http_config\": {\n              \"http2_protocol_options\": {}\n"
    ∷ "            }\n          }\n        },\n        \"load_assignment\": {\n"
    ∷ "          \"cluster_name\": \"xds_cluster\",\n          \"endpoints\": [\n            {\n"
    ∷ "              \"lb_endpoints\": [\n                {\n                  \"endpoint\": {\n"
    ∷ "                    \"address\": {\n                      \"socket_address\": {\n"
    ∷ "                        \"address\": \"127.0.0.1\",\n                        " ∷ [])

abbrev pub resources_rest : String
resources_rest = concat (
    "\n                      }\n                    }\n                  }\n                }\n"
    ∷ "              ]\n            }\n          ]\n        }\n      }\n    ]\n  },\n" ∷ [])

abbrev pub resources_text : ℕ → String
resources_text xds_port =
    concat (resources_head ∷ "\"port_value\": " ∷ show_ℕ xds_port ∷ resources_rest ∷ [])

abbrev pub admin_text : String
admin_text = concat (
    "  \"admin\": {\n    \"address\": {\n      \"socket_address\": {\n"
    ∷ "        \"address\": \"0.0.0.0\",\n        \"port_value\": 9901\n      }\n    }\n  }" ∷ [])

abbrev pub runtime_text : String
runtime_text = concat (
    ",\n  \"layered_runtime\": {\n    \"layers\": [\n      {\n        \"name\": \"static_layer\",\n"
    ∷ "        \"static_layer\": {\n          \"overload\": {\n"
    ∷ "            \"global_downstream_max_connections\": 50000\n          }\n        }\n      }\n"
    ∷ "    ]\n  }\n}" ∷ [])

unfoldable pub bootstrap : ProxyServer → String
unfolding show_ℕ or_port
bootstrap proxy =
    let xds_port = or_port proxy.spec.xds_port 18000 in
    concat (
      node_text proxy.metadata.name proxy.metadata.name
      ∷ resources_text xds_port
      ∷ admin_text
      ∷ "\n}"
      ∷ [])

unfoldable pub new_envoy_bootstrap_config_map : ProxyServer → ConfigMap
unfolding bootstrap
new_envoy_bootstrap_config_map proxy = record {
  metadata = suffixed proxy.metadata "-proxy-bootstrap" proxy.metadata.name;
  entries = ("bootstrap.json", bootstrap proxy) ∷ [];
}

-- The document of the package envoy, which bounds the connections of Envoy as well.
unfoldable pub build_envoy_bootstrap_config : ProxyServer → ℕ → String
unfolding show_ℕ
build_envoy_bootstrap_config proxy xds_port = concat (
    node_text proxy.metadata.name proxy.metadata.name
    ∷ resources_text xds_port
    ∷ admin_text
    ∷ runtime_text
    ∷ [])

unfoldable pub build_listener_config : ProxyServer → String
unfolding show_ℕ or_port
build_listener_config proxy = concat (
    "{\n  \"@type\": \"type.googleapis.com/envoy.config.listener.v3.Listener\",\n"
    ∷ "  \"name\": \"listener_"
    ∷ proxy.metadata.name
    ∷ "\",\n  \"address\": {\n    \"socket_address\": {\n      \"protocol\": \"TCP\",\n"
    ∷ "      \"address\": \"0.0.0.0\",\n      \"port_value\": "
    ∷ show_ℕ (or_port proxy.spec.port 443)
    ∷ "\n    }\n  }\n}"
    ∷ [])
