-- ===== src/ProxyController/Pod.antt =====
-- newProxyDeployment: Envoy, and the manager that serves its configuration, in one pod.
use oooi.Prelude.{
  ℕ, String, true, false, none, some, [], ◌∷◌, concat, show_ℕ, or_default, or_port, ◌*◌,
}
use oooi.Prelude.Assoc.{Assoc}
use oooi.Api.Meta.{named}
use oooi.Api.Proxy.{ProxyServer}
use oooi.Api.Pods.{Container, PodSpec, Deployment, config_map, empty_dir}
use oooi.Workloads.Builders.{network_annotation, ensure_ip_with_cidr}

abbrev pub default_manager_image : String
default_manager_image = "quay.io/cldmnky/oooi:latest"

abbrev pub mebibytes : ℕ → ℕ
mebibytes n = n * 1048576

abbrev pub proxy_labels : ProxyServer → Assoc String
proxy_labels proxy =
    ("app", "proxy-server") ∷ ("hostedcluster.densityops.com", proxy.metadata.name) ∷ []

unfoldable pub envoy_container : ProxyServer → Container
unfolding or_default or_port
envoy_container proxy = record {
  name = "envoy";
  image = or_default proxy.spec.proxy_image "envoyproxy/envoy:v1.36.4";
  command = "/usr/local/bin/envoy" ∷ [];
  args =
      "-c"
      ∷ "/etc/envoy/bootstrap.json"
      ∷ "-l"
      ∷ or_default proxy.spec.log_level "info"
      ∷ "--log-path"
      ∷ "/tmp/envoy.log"
      ∷ [];
  ports =
      record { name = "proxy"; container_port = or_port proxy.spec.port 443; protocol = "TCP" }
      ∷ record { name = "admin"; container_port = 9901; protocol = "TCP" }
      ∷ [];
  allow_privilege_escalation = some true;
  added_capabilities = "NET_BIND_SERVICE" ∷ [];
  volume_mounts =
      record { name = "bootstrap-config"; mount_path = "/etc/envoy"; read_only = true }
      ∷ record { name = "envoy-logs"; mount_path = "/tmp"; read_only = false }
      ∷ [];
  liveness_probe = none;
  readiness_probe = none;
  resources = some (record {
    requests = record { cpu_millis = 100; memory_bytes = mebibytes 256 };
    limits = record { cpu_millis = 500; memory_bytes = mebibytes 512 };
  });
}

unfoldable pub manager_container : ProxyServer → Container
unfolding or_default or_port show_ℕ
manager_container proxy =
    let xds_port = or_port proxy.spec.xds_port 18000 in
    record {
      name = "manager";
      image = or_default proxy.spec.manager_image default_manager_image;
      command = [];
      args =
          "proxy"
          ∷ "--xds-port"
          ∷ show_ℕ xds_port
          ∷ "--namespace"
          ∷ proxy.metadata.namespace
          ∷ "--proxy-name"
          ∷ proxy.metadata.name
          ∷ [];
      ports = record { name = "xds"; container_port = xds_port; protocol = "TCP" } ∷ [];
      allow_privilege_escalation = none;
      added_capabilities = [];
      volume_mounts = [];
      liveness_probe = none;
      readiness_probe = none;
      resources = some (record {
        requests = record { cpu_millis = 50; memory_bytes = mebibytes 128 };
        limits = record { cpu_millis = 200; memory_bytes = mebibytes 256 };
      });
    }

unfoldable pub proxy_pod : ProxyServer → PodSpec
unfolding envoy_container manager_container
proxy_pod proxy = record {
  service_account_name = concat (proxy.metadata.name ∷ "-proxy" ∷ []);
  run_as_non_root = false;
  run_as_user = 0;
  containers = envoy_container proxy ∷ manager_container proxy ∷ [];
  volumes =
      record {
        name = "bootstrap-config";
        source = config_map (concat (proxy.metadata.name ∷ "-proxy-bootstrap" ∷ [])) [];
      }
      ∷ record { name = "envoy-logs"; source = empty_dir }
      ∷ [];
}

unfoldable pub proxy_annotations : ProxyServer → Assoc String
unfolding ensure_ip_with_cidr or_default
proxy_annotations proxy =
    let network = proxy.spec.network_config in
    (
      "k8s.v1.cni.cncf.io/networks",
      network_annotation network.network_attachment_name
          (or_default network.network_attachment_namespace proxy.metadata.namespace)
          (ensure_ip_with_cidr network.server_ip),
    )
    ∷ []

unfoldable pub new_proxy_deployment : ProxyServer → Deployment
unfolding proxy_pod proxy_annotations
new_proxy_deployment proxy = record {
  metadata = record (named proxy.metadata.name proxy.metadata.namespace) {
    labels = proxy_labels proxy;
  };
  spec = record {
    replicas = 1;
    match_labels = proxy_labels proxy;
    template_labels = proxy_labels proxy;
    template_annotations = proxy_annotations proxy;
    pod = proxy_pod proxy;
  };
}
