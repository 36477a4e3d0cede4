-- ===== src/DnsController/Refines.antt =====
-- What the hosts sections of the two views answer. The hosts plugin compares names without regard to
-- case and answers with the address of every line that has the name.
use Prim.Native.String.{◌++◌ as append}
use text.Mathlib.TextLemmas.{append_assoc, append-nil}
use oooi.Prelude.{
  String, Bool, true, false, List, [], ◌∷◌, map, select, ◌≡◌, refl, ap, ◌∙◌, arith, All, ◌===◌,
  Bool-cases, inl, inr,
}
use oooi.Prelude.Paths.{Word, has_char, has_char-append}
use oooi.Api.Dns.{DnsServer, DnsStaticEntry}
use oooi.DnsController.Corefile.{
  host_line, multus_hosts, default_hosts_at, default_hosts, corefile, new_dns_config_map,
}
use oooi.DnsController.Hosts.{
  read_hosts, Plain, Plain-Named, read_hosts-multus_hosts, read_hosts-default_hosts,
}
use oooi.DnsController.Views.{
  multus, default, address_in, hosts_in, HasViews, network, corefile-HasViews,
}

-- The addresses of the lines with the name, in their order. `lower` is how a name is normalised.
abbrev pub answers : (String → String) → String → List (String × String) → List String
answers lower hostname hosts =
    map (λ (l : String × String). l.0)
      (select (λ (l : String × String). lower l.1 === lower hostname) hosts)

-- The specification: the address of each entry with the name in the view.
abbrev pub addresses :
    (String → String) → (DnsStaticEntry → String) → List DnsStaticEntry → String → List String
addresses lower address entries hostname =
    map address (select (λ (e : DnsStaticEntry). lower e.hostname === lower hostname) entries)

-- Neither the addresses nor the names have the sign that begins a comment.
abbrev pub Uncommented : List DnsStaticEntry → Type 0
Uncommented entries =
    All (λ (e : DnsStaticEntry). (has_char "#" e.ip ≡ false) × (has_char "#" e.hostname ≡ false))
      entries

answers-addresses :
    (lower : String → String) (address : DnsStaticEntry → String) (entries : List DnsStaticEntry)
    (hostname : String)
    → answers lower hostname (map (λ (e : DnsStaticEntry). (address e, e.hostname)) entries)
      ≡ addresses lower address entries hostname
unfolding select
answers-addresses lower address [] hostname = refl
answers-addresses lower address (e ∷ es) hostname =
    ground (arith, answers-addresses lower address es hostname)

host_line-parts :
    (ip hostname rest : String)
    → append (host_line ip hostname) rest
      ≡ append "        " (append ip (append " " (append hostname (append "\n" rest))))
host_line-parts ip hostname rest = simp (append_assoc, append-nil)

host_line-uncommented :
    (ip hostname rest : String)
    → has_char "#" ip ≡ false
    → has_char "#" hostname ≡ false
    → has_char "#" rest ≡ false
    → has_char "#" (append (host_line ip hostname) rest) ≡ false
unfolding has_char
host_line-uncommented ip hostname rest a b c =
    ap (has_char "#") (host_line-parts ip hostname rest)
    ∙ ground (
      arith,
      has_char-append "#" "        " (append ip (append " " (append hostname (append "\n" rest)))),
      has_char-append "#" ip (append " " (append hostname (append "\n" rest))),
      has_char-append "#" " " (append hostname (append "\n" rest)),
      has_char-append "#" hostname (append "\n" rest),
      has_char-append "#" "\n" rest,
    )

multus_hosts-Uncommented :
    (entries : List DnsStaticEntry)
    → Uncommented entries
    → has_char "#" (multus_hosts entries) ≡ false
unfolding multus_hosts has_char
multus_hosts-Uncommented [] plain = refl
multus_hosts-Uncommented (e ∷ es) ((a, b), plain) =
    ap (λ t. has_char "#" (append (host_line e.ip e.hostname) t)) (append-nil (multus_hosts es))
    ∙ host_line-uncommented e.ip e.hostname (multus_hosts es) a b
        (multus_hosts-Uncommented es plain)

default_hosts_at-Uncommented :
    (ip : String) (entries : List DnsStaticEntry)
    → has_char "#" ip ≡ false
    → Uncommented entries
    → has_char "#" (default_hosts_at ip entries) ≡ false
unfolding default_hosts_at has_char
default_hosts_at-Uncommented ip [] a plain = refl
default_hosts_at-Uncommented ip (e ∷ es) a ((_, b), plain) =
    ap (λ t. has_char "#" (append (host_line ip e.hostname) t))
      (append-nil (default_hosts_at ip es))
    ∙ host_line-uncommented ip e.hostname (default_hosts_at ip es) a b
        (default_hosts_at-Uncommented ip es a plain)

default_hosts-Uncommented :
    (dns : DnsServer)
    → has_char "#" dns.spec.network_config.internal_proxy_ip ≡ false
    → Uncommented dns.spec.static_entries
    → has_char "#" (default_hosts dns) ≡ false
unfolding default_hosts has_char
default_hosts-Uncommented dns a plain =
    elim (Bool-cases (dns.spec.network_config.internal_proxy_ip === "")) [
      | inl q ↦ rw (q, default_hosts) refl
      | inr q ↦
          rw (q, default_hosts)
            (default_hosts_at-Uncommented dns.spec.network_config.internal_proxy_ip
              dns.spec.static_entries a plain)
    ]

-- The Corefile of a DNSServer implements the split of its views. The ConfigMap has one Corefile,
-- whose text has first the block of the view multus, which takes the clients of the secondary
-- network of the spec or else of 192.168.0.0/16, and then that of the view default, which takes all
-- others. Each has a hosts section without comments. For every name and every way to normalise
-- names, the lines of the first section with this name have the addresses of the static entries
-- with the name, in their order, and those of the second have the internal proxy once for each of
-- these entries. The address of the internal proxy and those of the entries have to be IP
-- addresses, and they and the names have neither blanks nor the comment sign.
pub corefile-refines :
    (is_ip : String → Bool) (lower : String → String) (dns : DnsServer) (hostname : String)
    → is_ip dns.spec.network_config.internal_proxy_ip ≡ true
    → Word dns.spec.network_config.internal_proxy_ip
    → has_char "#" dns.spec.network_config.internal_proxy_ip ≡ false
    → Plain is_ip dns.spec.static_entries
    → Uncommented dns.spec.static_entries
    → (text : String) × (m : String) × (d : String) × ((new_dns_config_map dns).entries
        ≡ ("Corefile", text) ∷ [])
      × HasViews text (network dns) m d
      × (has_char "#" m ≡ false)
      × (has_char "#" d ≡ false)
      × (answers lower hostname (read_hosts is_ip m)
          ≡ addresses lower (address_in dns multus) dns.spec.static_entries hostname)
      × (answers lower hostname (read_hosts is_ip d)
          ≡ addresses lower (address_in dns default) dns.spec.static_entries hostname)
unfolding new_dns_config_map
corefile-refines is_ip lower dns hostname good word bare plain uncommented =
    let entries = dns.spec.static_entries in
    let named = Plain-Named is_ip entries plain in
    (
      corefile dns,
      hosts_in dns multus,
      hosts_in dns default,
      refl,
      corefile-HasViews dns word.0,
      multus_hosts-Uncommented entries uncommented,
      default_hosts-Uncommented dns bare uncommented,
      ap (answers lower hostname) (read_hosts-multus_hosts is_ip entries plain)
          ∙ answers-addresses lower (λ e. e.ip) entries hostname,
      ap (answers lower hostname) (read_hosts-default_hosts is_ip dns word named ∙ rw good refl)
          ∙ answers-addresses lower (λ e. dns.spec.network_config.internal_proxy_ip) entries
              hostname,
    )
