-- ===== src/DnsController/Pod.antt =====
-- newDNSDeployment.
use oooi.Prelude.{String, true, false, none, some, [], ◌∷◌, concat, or_port, ◌===◌, if◌then◌else◌}
use oooi.Prelude.Assoc.{Assoc}
use oooi.Api.Meta.{named}
use oooi.Api.Dns.{DnsServer}
use oooi.Api.Pods.{Container, PodSpec, Deployment, Probe, config_map}
use oooi.Workloads.Builders.{network_annotation, ensure_ip_with_cidr}
use oooi.DnsController.Objects.{dns_labels}

-- Only a server with a network attachment has the annotation.
unfoldable pub dns_annotations : DnsServer → Assoc String
unfolding ensure_ip_with_cidr
dns_annotations dns =
    let network = dns.spec.network_config in
    if network.network_attachment_name === ""
    then []
    else (
      "k8s.v1.cni.cncf.io/networks",
      network_annotation network.network_attachment_name network.network_attachment_namespace
          (ensure_ip_with_cidr network.server_ip),
    )
      ∷ []

abbrev pub liveness : Probe
liveness = record {
  path = "/health";
  port = 8080;
  initial_delay_seconds = 15;
  period_seconds = 30;
  timeout_seconds = 5;
  failure_threshold = 3;
}

abbrev pub readiness : Probe
readiness = record {
  path = "/ready";
  port = 8181;
  initial_delay_seconds = 10;
  period_seconds = 10;
  timeout_seconds = 3;
  failure_threshold = 3;
}

unfoldable pub dns_container : DnsServer → Container
unfolding or_port
dns_container dns =
    let port = or_port dns.spec.network_config.dns_port 53 in
    record {
      name = "dns-server";
      image = dns.spec.image;
      command = [];
      args = "dns" ∷ "--corefile" ∷ "/etc/coredns/Corefile" ∷ [];
      ports =
          record { name = "dns-udp"; container_port = port; protocol = "UDP" }
          ∷ record { name = "dns-tcp"; container_port = port; protocol = "TCP" }
          ∷ record { name = "health"; container_port = 8080; protocol = "TCP" }
          ∷ record { name = "ready"; container_port = 8181; protocol = "TCP" }
          ∷ [];
      allow_privilege_escalation = none;
      added_capabilities = [];
      volume_mounts =
          record { name = "dns-config"; mount_path = "/etc/coredns"; read_only = true } ∷ [];
      liveness_probe = some liveness;
      readiness_probe = some readiness;
      resources = none;
    }

unfoldable pub dns_pod : DnsServer → PodSpec
unfolding dns_container
dns_pod dns = record {
  service_account_name = concat (dns.metadata.name ∷ "-dns" ∷ []);
  run_as_non_root = false;
  run_as_user = 0;
  containers = dns_container dns ∷ [];
  volumes =
      record {
        name = "dns-config";
        source =
            config_map (concat (dns.metadata.name ∷ "-dns-config" ∷ []))
              (("Corefile", "Corefile") ∷ []);
      }
      ∷ [];
}

unfoldable pub new_dns_deployment : DnsServer → Deployment
unfolding dns_annotations dns_pod
new_dns_deployment dns = record {
  metadata = record (named dns.metadata.name dns.metadata.namespace) { labels = dns_labels dns };
  spec = record {
    replicas = 1;
    match_labels = dns_labels dns;
    template_labels = dns_labels dns;
    template_annotations = dns_annotations dns;
    pod = dns_pod dns;
  };
}
