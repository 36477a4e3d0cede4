-- ===== src/Workloads/Builders.antt =====
-- What the builders of the three controllers have in common.
use oooi.Prelude.{String, [], ◌∷◌, concat, if◌then◌else◌}
use oooi.Prelude.Paths.{has_char}
use oooi.Api.Meta.{ObjectMeta, named}
use oooi.Api.Rbac.{Subject}

-- An object of a server: the server's name with a suffix, its namespace, and the label "app".
abbrev pub suffixed : ObjectMeta → String → String → ObjectMeta
suffixed server suffix app = record (named (concat (server.name ∷ suffix ∷ [])) server.namespace) {
  labels = ("app", app) ∷ [];
}

abbrev pub account_subject : String → String → Subject
account_subject name namespace = record {
  kind = "ServiceAccount";
  name = name;
  namespace = namespace;
}

-- The annotation that attaches a pod to a network with a fixed address.
abbrev pub network_annotation : String → String → String → String
network_annotation name namespace ip = concat (
    "[\n  {\n    \"name\": \"" ∷ name ∷ "\",\n    \"namespace\": \"" ∷ namespace
    ∷ "\",\n    \"ips\": [\"" ∷ ip ∷ "\"]\n  }\n]" ∷ [])

-- ensureIPWithCIDR, which the DNSServer controller has written out.
unfoldable pub ensure_ip_with_cidr : String → String
ensure_ip_with_cidr ip = if has_char "/" ip then ip else concat (ip ∷ "/24" ∷ [])
