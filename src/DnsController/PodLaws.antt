-- ===== src/DnsController/PodLaws.antt =====
-- The pods of the DNS server find what the controller creates for them, and its Service reaches
-- them and no others.
use oooi.Prelude.{String, [], ◌≡◌, refl, sym, ap, inl, inr, arith, eq_iff}
use oooi.Api.Dns.{DnsServer}
use oooi.Workloads.Mounts.{Fits, Selects, Reaches}
use oooi.DnsController.Corefile.{new_dns_config_map}
use oooi.DnsController.Objects.{new_dns_service_account, new_dns_service}
use oooi.DnsController.Pod.{new_dns_deployment}

pub new_dns_deployment-Fits :
    (dns : DnsServer)
    → Fits
        (new_dns_config_map dns)
        []
        (new_dns_service_account dns).metadata
        (new_dns_deployment dns)
unfolding new_dns_deployment new_dns_config_map new_dns_service_account
new_dns_deployment-Fits dns = (
  refl,
  refl,
  ((refl, ((_, inl refl), tt)), tt),
  (((_, inl refl, refl), tt), tt),
  (refl, (refl, tt)),
)

-- The Service of a server selects its pods, and each of its ports is one of theirs.
pub new_dns_service-Reaches :
    (dns : DnsServer) → Reaches (new_dns_service dns) (new_dns_deployment dns)
unfolding new_dns_service new_dns_deployment
new_dns_service-Reaches dns = (
  (λ e. ground arith, (inl refl, (inr (inl refl), tt))),
  ((_, inl refl, (_, inl refl, refl, refl)), ((_, inl refl, (_, inr (inl refl), refl, refl)), tt)),
)

-- It selects the pods of no other server.
pub own_pods :
    (dns other : DnsServer)
    → Selects (new_dns_service dns) (new_dns_deployment other)
    → dns.metadata.name ≡ other.metadata.name
unfolding new_dns_service new_dns_deployment
own_pods dns other (some_label, (app, (name, rest))) = elim name [
  | inl same ↦
      let keys = ap (λ (l : String × String). l.0) same in
      absurd (ground (arith, eq_iff "app" "hostedcluster.densityops.com"))
  | inr (inl same) ↦ sym (ap (λ (l : String × String). l.1) same)
  | inr (inr nowhere) ↦ absurd nowhere
]
