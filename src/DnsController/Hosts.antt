-- ===== src/DnsController/Hosts.antt =====
-- The entries of a hosts section, read back line by line: an address, and names behind it.
use Prim.Native.String.{◌∷◌ as cons, ◌++◌ as append}
use text.Mathlib.TextLemmas.{append_assoc, append-nil, cons-append, nil-append}
use oooi.Prelude.{
  String, Bool, if◌then◌else◌, true, false, List, [], ◌∷◌, ◌++◌, map, concat, ◌≡◌, ◌≢◌, refl, sym,
  ap, ◌∙◌, arith, All, ◌===◌, Bool-cases, inl, inr, eq_iff,
}
use oooi.Prelude.Paths.{
  has_char, has_char-append, split, split-at, split-whole, fields, Word, eight-blanks, fields-two,
}
use oooi.Api.Dns.{DnsServer, DnsStaticEntry}
use oooi.DnsController.Corefile.{host_line, multus_hosts, default_hosts_at, default_hosts}

-- A line is an address and its names. `is_ip` is whether net.ParseIP takes the address: the plugin
-- skips a line whose address it does not take.
unfoldable entry_of : (String → Bool) → List String → List (String × String)
entry_of is_ip [] = []
entry_of is_ip (ip ∷ names) = if is_ip ip then map (λ name. (ip, name)) names else []

unfoldable read_lines : (String → Bool) → List String → List (String × String)
unfolding entry_of fields
read_lines is_ip [] = []
read_lines is_ip (line ∷ lines) = entry_of is_ip (fields line) ++ read_lines is_ip lines

unfoldable pub read_hosts : (String → Bool) → String → List (String × String)
unfolding read_lines split
read_hosts is_ip text = read_lines is_ip (split "\n" text)

-- The line without its end.
abbrev line_text : String → String → String
line_text ip hostname = append "        " (append ip (append " " hostname))

host_line-end :
    (ip hostname rest : String)
    → append (host_line ip hostname) rest ≡ append (line_text ip hostname) (cons "\n" rest)
host_line-end ip hostname rest =
    let feed : append "\n" rest ≡ cons "\n" rest =
      cons-append "\n" "" rest ∙ ap (cons "\n") (nil-append rest) in
    simp (append_assoc, nil-append, sym feed)

one_line :
    (ip hostname : String) → Word ip → Word hostname → has_char "\n" (line_text ip hostname) ≡ false
unfolding has_char
one_line ip hostname (a, b, c) (d, e, f) =
    has_char-append "\n" "        " (append ip (append " " hostname))
    ∙ has_char-append "\n" ip (append " " hostname)
    ∙ ground (arith, has_char-append "\n" " " hostname)

read_hosts-line :
    (is_ip : String → Bool) (ip hostname rest : String)
    → Word ip
    → Word hostname
    → read_hosts is_ip (append (host_line ip hostname) rest)
      ≡ entry_of is_ip (ip ∷ hostname ∷ []) ++ read_hosts is_ip rest
unfolding read_hosts read_lines
read_hosts-line is_ip ip hostname rest wi wh =
    let words = eight-blanks (append ip (append " " hostname)) ∙ fields-two ip hostname wi wh in
    rw
      (
        host_line-end ip hostname rest,
        split-at "\n" (line_text ip hostname) rest (one_line ip hostname wi wh),
        words,
      )
      refl

-- The entries that the two views have, as pairs of an address and a name.
abbrev pub multus_entries : List DnsStaticEntry → List (String × String)
multus_entries entries = map (λ (e : DnsStaticEntry). (e.ip, e.hostname)) entries

abbrev pub internal_entries : String → List DnsStaticEntry → List (String × String)
internal_entries ip entries = map (λ (e : DnsStaticEntry). (ip, e.hostname)) entries

-- The addresses and names of the entries are words, and the addresses are IP addresses.
abbrev pub Plain : (String → Bool) → List DnsStaticEntry → Type 0
Plain is_ip entries =
    All (λ (e : DnsStaticEntry). (is_ip e.ip ≡ true) × Word e.ip × Word e.hostname) entries

-- The names are words, whatever the addresses.
abbrev pub Named : List DnsStaticEntry → Type 0
Named entries = All (λ (e : DnsStaticEntry). Word e.hostname) entries

pub Plain-Named :
    (is_ip : String → Bool) (entries : List DnsStaticEntry) → Plain is_ip entries → Named entries
Plain-Named is_ip [] plain = tt
Plain-Named is_ip (e ∷ es) ((good, ip, hostname), plain) = (hostname, Plain-Named is_ip es plain)

module _ (is_ip : String → Bool) where
  pub read_hosts-multus_hosts :
      (entries : List DnsStaticEntry)
      → Plain is_ip entries
      → read_hosts is_ip (multus_hosts entries) ≡ multus_entries entries
  unfolding multus_hosts read_hosts read_lines entry_of split fields oooi.Prelude.Paths.not_empty
  read_hosts-multus_hosts [] plain = refl
  read_hosts-multus_hosts (e ∷ es) ((good, ip, hostname), plain) =
      let rest = read_hosts-multus_hosts es plain in
      ap (λ t. read_hosts is_ip (append (host_line e.ip e.hostname) t))
        (append-nil (multus_hosts es))
      ∙ read_hosts-line is_ip e.ip e.hostname (multus_hosts es) ip hostname
      ∙ rw good (ap (λ hosts. (e.ip, e.hostname) ∷ hosts) rest)

  read_hosts-default_hosts_at :
      (ip : String) (entries : List DnsStaticEntry)
      → Word ip
      → Named entries
      → read_hosts is_ip (default_hosts_at ip entries)
        ≡ (if is_ip ip then internal_entries ip entries else [])
  unfolding default_hosts_at read_hosts read_lines entry_of split fields
      oooi.Prelude.Paths.not_empty
  read_hosts-default_hosts_at ip [] word plain = elim (Bool-cases (is_ip ip)) [
    | inl q ↦ rw q refl
    | inr q ↦ rw q refl
  ]
  read_hosts-default_hosts_at ip (e ∷ es) word (hostname, plain) =
      let rest = read_hosts-default_hosts_at ip es word plain in
      let line =
        ap (λ t. read_hosts is_ip (append (host_line ip e.hostname) t))
          (append-nil (default_hosts_at ip es))
        ∙ read_hosts-line is_ip ip e.hostname (default_hosts_at ip es) word hostname in
      elim (Bool-cases (is_ip ip)) [
        | inl q ↦ line ∙ rw q (ap (λ hosts. (ip, e.hostname) ∷ hosts) (rw q at rest))
        | inr q ↦ line ∙ rw q (rw q at rest)
      ]

  pub read_hosts-default_hosts :
      (dns : DnsServer)
      → Word dns.spec.network_config.internal_proxy_ip
      → Named dns.spec.static_entries
      → read_hosts is_ip (default_hosts dns) ≡ (
          if is_ip dns.spec.network_config.internal_proxy_ip
          then internal_entries dns.spec.network_config.internal_proxy_ip dns.spec.static_entries
          else [])
  unfolding default_hosts
  read_hosts-default_hosts dns (full, blank, line) plain =
      elim (Bool-cases (dns.spec.network_config.internal_proxy_ip === "")) [
        | inl q ↦ absurd (ground (arith, eq_iff dns.spec.network_config.internal_proxy_ip ""))
        | inr q ↦
            rw (q, default_hosts)
              (read_hosts-default_hosts_at dns.spec.network_config.internal_proxy_ip
                dns.spec.static_entries (full, blank, line) plain)
      ]
