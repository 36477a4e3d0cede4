-- ===== src/DhcpServer/Configured.antt =====
-- The plugin range as it is started from the configuration that the DHCPServer controller writes.
-- Its rows are read as words; coredhcp gives a plugin those behind its name.
use Prim.Native.String.{◌++◌ as append}
use text.Mathlib.TextLemmas.{append_assoc, nil-append}
use oooi.Prelude.{
  ℕ, String, Bool, true, false, Option, none, some, List, [], ◌∷◌, ◌≡◌, ◌<◌, refl, sym, ap, ◌∙◌,
  arith, map, or_default, ◌===◌, eq_iff, if◌then◌else◌, ok, inl, inr, Option-cases, Bool-cases,
}
use oooi.Prelude.Paths.{
  has_char, has_char-append, split, fields, Word, eight-blanks, fields-first, fields-two,
  split-line, split-first,
}
use oooi.Api.Dhcp.{DhcpServer}
use oooi.DhcpController.Config.{dhcp_config, first_server}

-- The words behind a name in the first row that has it as the name of an item.
unfoldable pub args_of : String → List (List String) → Option (List String)
args_of name [] = none
args_of name ([] ∷ rows) = args_of name rows
args_of name ((dash ∷ []) ∷ rows) = args_of name rows
args_of name ((dash ∷ word ∷ args) ∷ rows) =
    let rest = args_of name rows in if word === name then some args else rest

-- No setting of the server has a line end, and those of the leases are words.
pub record Plain (dhcp : DhcpServer) : Type 0 where
  pub ip : has_char "\n" dhcp.spec.network_config.server_ip ≡ false
  pub dns : has_char "\n" (first_server dhcp.spec.network_config.dns_servers) ≡ false
  pub gateway : has_char "\n" dhcp.spec.network_config.gateway ≡ false
  pub first : Word dhcp.spec.lease_config.range_start
  pub last : Word dhcp.spec.lease_config.range_end
  pub lease : Word (or_default dhcp.spec.lease_config.lease_time "60s")

abbrev pub rows : String → List (List String)
rows text = map fields (split "\n" text)

name-Word :
    (s : String) → (s === "") ≡ false → has_char " " s ≡ false → has_char "\n" s ≡ false → Word s
name-Word s full blank line = ((λ e. ground (arith, eq_iff s "")), blank, line)

-- A row that is an item with a word for its name.
item_row :
    (word value : String)
    → Word word
    → fields (append (append "        - " (append word " ")) value) ≡ "-" ∷ word ∷ fields value
unfolding fields split has_char
item_row word value w =
    ap fields (
      append_assoc "        - " (append word " ") value
      ∙ append_assoc "        " "- " (append (append word " ") value))
    ∙ eight-blanks (append "- " (append (append word " ") value))
    ∙ ap fields (append_assoc "-" " " (append (append word " ") value))
    ∙ fields-first "-" (append (append word " ") value) (name-Word "-" refl refl refl)
    ∙ ap (λ ws. "-" ∷ ws) (ap fields (append_assoc word " " value) ∙ fields-first word value w)

-- Another item is passed over.
pass_item :
    (word value rest : String)
    → Word word
    → (word === "range:") ≡ false
    → has_char "\n" word ≡ false
    → has_char "\n" value ≡ false
    → args_of "range:"
        (rows (append (append "        - " (append word " ")) (append value (append "\n" rest))))
      ≡ args_of "range:" (rows rest)
unfolding args_of has_char
pass_item word value rest w other plain plain_value =
    let key = append "        - " (append word " ") in
    let whole : has_char "\n" (append key value) ≡ false = ground (
      arith,
      has_char-append "\n" key value,
      has_char-append "\n" "        - " (append word " "),
      has_char-append "\n" word " ",
    ) in
    ap (λ t. args_of "range:" (rows t)) (sym (append_assoc key value (append "\n" rest)))
    ∙ ap (λ ls. args_of "range:" (map fields ls)) (split-line (append key value) rest whole)
    ∙ rw (item_row word value w, other, args_of) refl

head_lines :
    (rest : String)
    → split "\n" (
        append "# hyperdhcp configuration\nserver4:\n    listen:\n    - \"%net1\"\n    plugins:\n"
          rest)
      ≡ "# hyperdhcp configuration"
        ∷ "server4:"
        ∷ "    listen:"
        ∷ "    - \"%net1\""
        ∷ "    plugins:"
        ∷ split "\n" rest
unfolding has_char
head_lines rest =
    split-first "# hyperdhcp configuration" "server4:\n    listen:\n    - \"%net1\"\n    plugins:\n"
      rest refl
    ∙ ap (λ ls. "# hyperdhcp configuration" ∷ ls)
        (split-first "server4:" "    listen:\n    - \"%net1\"\n    plugins:\n" rest refl
          ∙ ap (λ ls. "server4:" ∷ ls)
              (split-first "    listen:" "    - \"%net1\"\n    plugins:\n" rest refl
                ∙ ap (λ ls. "    listen:" ∷ ls)
                    (split-first "    - \"%net1\"" "    plugins:\n" rest refl
                      ∙ ap (λ ls. "    - \"%net1\"" ∷ ls)
                          (split-first "    plugins:" "" rest refl
                            ∙ ap (λ t. "    plugins:" ∷ split "\n" t) (nil-append rest)))))

pass_head :
    (rest : String)
    → args_of "range:" (
        rows (
          append "# hyperdhcp configuration\nserver4:\n    listen:\n    - \"%net1\"\n    plugins:\n"
            (append "        - kubevirt:\n" rest)))
      ≡ args_of "range:" (rows rest)
unfolding args_of fields oooi.Prelude.Paths.not_empty split oooi.Prelude.Paths.on_first has_char
pass_head rest =
    let kubevirt = append "        - kubevirt:\n" rest in
    let next : split "\n" kubevirt ≡ "        - kubevirt:" ∷ split "\n" rest =
      split-first "        - kubevirt:" "" rest refl
      ∙ ap (λ t. "        - kubevirt:" ∷ split "\n" t) (nil-append rest) in
    ap (λ ls. args_of "range:" (map fields ls)) (head_lines kubevirt)
    ∙ ap (λ ls. args_of "range:" (map fields ls)) next

range_line :
    (first last lease : String)
    → Word first
    → Word last
    → Word lease
    → has_char "\n" (
        append "        - range: " (
          append "/var/lib/dhcp/leases.txt "
            (append first (append " " (append last (append " " lease))))))
      ≡ false
unfolding has_char
range_line first last lease (a, b, f) (c, d, l) (e, g, w) = ground (
  arith,
  has_char-append "\n" "        - range: " (
      append "/var/lib/dhcp/leases.txt "
        (append first (append " " (append last (append " " lease))))),
  has_char-append "\n" "/var/lib/dhcp/leases.txt "
      (append first (append " " (append last (append " " lease)))),
  has_char-append "\n" first (append " " (append last (append " " lease))),
  has_char-append "\n" " " (append last (append " " lease)),
  has_char-append "\n" last (append " " lease),
  has_char-append "\n" " " lease,
)

range_words :
    (first last lease : String)
    → Word first
    → Word last
    → Word lease
    → fields (
        append "/var/lib/dhcp/leases.txt "
          (append first (append " " (append last (append " " lease)))))
      ≡ "/var/lib/dhcp/leases.txt" ∷ first ∷ last ∷ lease ∷ []
unfolding has_char
range_words first last lease f l w =
    let rest = append first (append " " (append last (append " " lease))) in
    ap fields (append_assoc "/var/lib/dhcp/leases.txt" " " rest)
    ∙ fields-first "/var/lib/dhcp/leases.txt" rest
        (name-Word "/var/lib/dhcp/leases.txt" refl refl refl)
    ∙ ap (λ ws. "/var/lib/dhcp/leases.txt" ∷ ws)
        (fields-first first (append last (append " " lease)) f
          ∙ ap (λ ws. first ∷ ws) (fields-two last lease l w))

-- The row of the plugin range.
range_row :
    (first last lease : String)
    → Word first
    → Word last
    → Word lease
    → args_of "range:" (
        rows (
          append "        - range: /var/lib/dhcp/leases.txt "
            (append first (append " " (append last (append " " (append lease (append "\n" ""))))))))
      ≡ some ("/var/lib/dhcp/leases.txt" ∷ first ∷ last ∷ lease ∷ [])
unfolding args_of has_char
range_row first last lease f l w =
    let rest = append first (append " " (append last (append " " lease))) in
    let value = append "/var/lib/dhcp/leases.txt " rest in
    let line = append "        - range: " value in
    let text : append "        - range: /var/lib/dhcp/leases.txt "
          (append first (append " " (append last (append " " (append lease "\n")))))
        ≡ append line "\n" =
      append_assoc "        - range: " "/var/lib/dhcp/leases.txt "
        (append first (append " " (append last (append " " (append lease "\n")))))
      ∙ simp (append_assoc) in
    ap (λ t. args_of "range:" (rows t)) text
    ∙ ap (λ ls. args_of "range:" (map fields ls))
        (split-line line "" (range_line first last lease f l w))
    ∙ rw
        (
          item_row "range:" value (name-Word "range:" refl refl refl),
          range_words first last lease f l w,
        )
        refl

pub config-args :
    (dhcp : DhcpServer)
    → Plain dhcp
    → args_of "range:" (rows (dhcp_config dhcp))
      ≡ some (
          "/var/lib/dhcp/leases.txt"
          ∷ dhcp.spec.lease_config.range_start
          ∷ dhcp.spec.lease_config.range_end
          ∷ or_default dhcp.spec.lease_config.lease_time "60s"
          ∷ [])
unfolding dhcp_config has_char
config-args dhcp plain =
    pass_head _
    ∙ pass_item "server_id:" dhcp.spec.network_config.server_ip _ (name-Word _ refl refl refl) refl
        refl plain.ip
    ∙ pass_item "dns:" (first_server dhcp.spec.network_config.dns_servers) _
        (name-Word _ refl refl refl) refl refl plain.dns
    ∙ pass_item "router:" dhcp.spec.network_config.gateway _ (name-Word _ refl refl refl) refl refl
        plain.gateway
    ∙ pass_item "netmask:" "255.255.255.0" _ (name-Word _ refl refl refl) refl refl refl
    ∙ range_row dhcp.spec.lease_config.range_start dhcp.spec.lease_config.range_end
        (or_default dhcp.spec.lease_config.lease_time "60s") plain.first plain.last plain.lease
