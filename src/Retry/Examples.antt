-- ===== src/Retry/Examples.antt =====
-- A create-or-update that loses a race: another client creates the object between the first read
-- and the creation, and the second try updates it.
use oooi.Prelude.{ℕ, ◌≤◌, suc, zero, String, List, [], ◌∷◌, Outcome, ok, err, ◌≡◌, ◌≢◌, refl, arith}
use oooi.Api.Meta.{named, key_of}
use oooi.Api.Dhcp.{DhcpServer, DhcpServerSpec}
use oooi.Api.Dhcp
use oooi.Infra.Cluster.{ApiError, Kind, already_exists, conflict}
use oooi.Infra.Specs.{dhcp_shape}
use oooi.Infra.Sample.{memory, memory_laws}
use oooi.Retry.Loop.{create_or_update_with_retries, create_or_update}
use oooi.Retry.Sample.{run_steps, four, four_laws}
use oooi.Retry.Laws.{retries-Kept}
use oooi.Retry.Bounds.{counted, beside, retries-writes}
use oooi.Retry.Single.{report, retries-eq-single}

abbrev server : String → DhcpServer
server image = record {
  metadata = named "lab-dhcp" "guests";
  spec = record {
    network_config = record {
      cidr = "10.0.0.0/24";
      gateway = "10.0.0.1";
      server_ip = "10.0.0.2";
      dns_servers = [];
      network_attachment_name = "vlan";
      network_attachment_namespace = "guests";
    };
    lease_config = record {
      range_start = "10.0.0.100";
      range_end = "10.0.0.200";
      lease_time = "1h";
    };
    options = [];
    image = image;
  };
  status = Dhcp.no_status;
}

abbrev kind : Kind DhcpServer
kind = memory dhcp_shape.meta_of (λ found new. new)

abbrev set_image : DhcpServer → Outcome ApiError DhcpServer
set_image o = ok (record o { spec = record o.spec { image = "new" } })

-- During the first try another client creates the object.
abbrev race : ℕ → List DhcpServer → List DhcpServer
race zero os = server "old" ∷ os
race (suc n) os = os

abbrev calm : ℕ → List DhcpServer → List DhcpServer
calm n os = os

abbrev IsNew : DhcpServerSpec → Type 0
IsNew s = s.image ≡ "new"

changes :
    (o o' : DhcpServer)
    → set_image o ≡ ok o'
    → (key_of o'.metadata ≡ key_of o.metadata) × (o'.spec.image ≡ "new")
changes o o' e = (ground arith, ground arith)

raced :
    (create_or_update_with_retries dhcp_shape.meta_of kind set_image four race (server "new") []).0
    ≡ ok tt
unfolding create_or_update_with_retries run_steps oooi.Infra.Sample.find oooi.Infra.Sample.create_in
    oooi.Infra.Sample.update_in
raced = refl

retries-Kept_example :
    (o : DhcpServer) × (kind.get
        (key_of (named "lab-dhcp" "guests"))
        (create_or_update_with_retries dhcp_shape.meta_of kind set_image four race
          (server "new")
          []).1.objects
      ≡ ok o)
    × (o.spec.image ≡ "new")
retries-Kept_example =
    retries-Kept dhcp_shape.meta_of dhcp_shape.spec_of kind set_image
      (memory_laws dhcp_shape.meta_of dhcp_shape.spec_of (λ found new. new)) race IsNew (λ s e. e)
      changes four four_laws (server "new") [] refl raced

single_good : (create_or_update dhcp_shape.meta_of kind set_image (server "new") []).0 ≡ ok tt
unfolding create_or_update oooi.Infra.Sample.find oooi.Infra.Sample.create_in
single_good = refl

no_race :
    (create_or_update dhcp_shape.meta_of kind set_image (server "new") []).0 ≢ err already_exists
no_race = λ e. ground (arith, single_good)

no_conflict :
    (create_or_update dhcp_shape.meta_of kind set_image (server "new") []).0 ≢ err conflict
no_conflict = λ e. ground (arith, single_good)

retries-eq-single_example :
    let one = create_or_update dhcp_shape.meta_of kind set_image (server "new") [] in
    let out =
      create_or_update_with_retries dhcp_shape.meta_of kind set_image four calm (server "new") [] in
    (out.0 ≡ report one.0) × (out.1.objects ≡ one.1)
retries-eq-single_example =
    retries-eq-single dhcp_shape.meta_of kind set_image calm (server "new") [] refl no_race
      no_conflict four 3 four_laws refl

retries-writes_example :
    (create_or_update_with_retries dhcp_shape.meta_of
      (counted kind)
      set_image
      four
      (beside dhcp_shape.meta_of kind set_image race)
      (server "new")
      (0, [])).1.objects.0
    ≤ 4
retries-writes_example =
    retries-writes dhcp_shape.meta_of kind set_image race four four_laws (server "new") []
