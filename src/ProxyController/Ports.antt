-- ===== src/ProxyController/Ports.antt =====
-- The ports of the Service: distinct, and those that Envoy listens on.
use mathlib.Core.List.{Permᴰ}
use mathlib.Core.List.Permᴰ
use text.Mathlib.TextLemmas.{
  append_cancel_left, append_cancel_right, append_assoc, append-eq-nil_iff,
}
use text.Mathlib.TextPositions.{starts_with-append}
use text.Mathlib.Text.{starts_with}
use Prim.Native.String.{◌++◌ as append}
use oooi.Prelude.{
  ℕ, String, Bool, List, [], ◌∷◌, ◌++◌, map, ok, show_ℕ, show_ℕ-injective, ◌==◌, or_port, ◌≡◌, ◌≢◌,
  ◌⊎◌, inl, inr, refl, sym, ap, ◌∙◌, arith, eq_iff, Bool-cases, Has, All, NoRepeat, NoRepeat-perm,
  NoRepeat-map, NoRepeat-snoc, Has-map, Has-map_from, Has-perm, Has-append_left, All-at,
}
use oooi.Api.Proxy.{ProxyServer, ProxyBackend}
use oooi.Api.Pods.{ServicePort}
use oooi.ProxyController.Service.{
  service_port, add_port, ports_from, port_name, admin_port, service_ports, new_proxy_service,
}
use oooi.Xds.Envoy.{Message, Listener, Cluster}
use oooi.Xds.Build.{Groups, append_to, group_from, group_by_port, build_envoy_resources}
use oooi.Xds.Ports.{expected_listeners}
use oooi.Xds.Resources.{build_exact}
use oooi.Xds.Backends.{Has-expected}

-- The keys of the two maps by port are the same.
keys : Groups → List ℕ
keys gs = map (λ (g : ℕ × List ProxyBackend). g.0) gs

keys-append_to :
    (port : ℕ) (b : ProxyBackend) (gs : Groups)
    → keys (append_to port b gs) ≡ add_port port (keys gs)
unfolding keys append_to add_port
keys-append_to port b [] = refl
keys-append_to port b ((p, bs) ∷ gs) = ground (arith, keys-append_to port b gs)

keys-group_from :
    (gs : Groups) (bs : List ProxyBackend) → keys (group_from gs bs) ≡ ports_from (keys gs) bs
unfolding group_from ports_from
keys-group_from gs [] = refl
keys-group_from gs (b ∷ bs) =
    keys-group_from (append_to b.port b gs) bs
    ∙ ap (λ ports. ports_from ports bs) (keys-append_to b.port b gs)

Has-add_port :
    (q port : ℕ) (ports : List ℕ) → Has q (add_port port ports) → (port ≡ q) ⊎ Has q ports
unfolding add_port
Has-add_port q port [] = λ h. elim h [ inl same ↦ inl same | inr nowhere ↦ absurd nowhere ]
Has-add_port q port (p ∷ ports) = elim (Bool-cases (p == port)) [
  | inl hit ↦ rw hit (λ h. inr h)
  | inr miss ↦ rw miss (λ h. elim h [
    | inl same ↦ inr (inl same)
    | inr there ↦ elim (Has-add_port q port ports there) [
      | inl new ↦ inl new
      | inr old ↦ inr (inr old)
    ]
  ])
]

NoRepeat-add_port : (port : ℕ) (ports : List ℕ) → NoRepeat ports → NoRepeat (add_port port ports)
unfolding add_port
NoRepeat-add_port port [] n = ((λ h. h), tt)
NoRepeat-add_port port (p ∷ ports) (n, ns) = elim (Bool-cases (p == port)) [
  | inl hit ↦ rw hit (n, ns)
  | inr miss ↦ rw miss (
    (λ h. elim (Has-add_port p port ports h) [ inl same ↦ ground arith | inr old ↦ n old ]),
    NoRepeat-add_port port ports ns,
  )
]

NoRepeat-ports_from :
    (ports : List ℕ) (bs : List ProxyBackend) → NoRepeat ports → NoRepeat (ports_from ports bs)
unfolding ports_from
NoRepeat-ports_from ports [] n = n
NoRepeat-ports_from ports (b ∷ bs) n =
    NoRepeat-ports_from (add_port b.port ports) bs (NoRepeat-add_port b.port ports n)

-- Each port is that of a backend.
Has-ports_from :
    (q : ℕ) (ports : List ℕ) (bs : List ProxyBackend)
    → Has q (ports_from ports bs)
    → Has q ports ⊎ ((b : ProxyBackend) × Has b bs × (b.port ≡ q))
unfolding ports_from
Has-ports_from q ports [] h = inl h
Has-ports_from q ports (b ∷ bs) h = elim (Has-ports_from q (add_port b.port ports) bs h) [
  | inr (x, inside, same) ↦ inr (x, inr inside, same)
  | inl here ↦ elim (Has-add_port q b.port ports here) [
    | inl same ↦ inr (b, inl refl, same)
    | inr old ↦ inl old
  ]
]

not_admin : (x : String) → "admin" ≢ append "proxy-" x
not_admin x e =
    let starts = ap (λ s. starts_with s "proxy-") e ∙ starts_with-append "proxy-" x in
    absurd (ground (arith, starts))

not_proxy : (x : String) → "proxy" ≢ append "proxy-" x
not_proxy x e =
    let both : append "proxy" "" ≡ append "proxy" (append "-" x) = e ∙ append_assoc "proxy" "-" x in
    let nil = sym (append_cancel_left "proxy" "" (append "-" x) both) in
    let dash = (append-eq-nil_iff.0 nil).0 in absurd (ground (arith, eq_iff "-" ""))

port_name_injective : (main a b : ℕ) → port_name main a ≡ port_name main b → a ≡ b
unfolding port_name
port_name_injective main a b e = elim (Bool-cases (a == main)) [
  | inl p ↦ elim (Bool-cases (b == main)) [
    | inl q ↦ ground arith
    | inr q ↦ absurd (not_proxy (append (show_ℕ b) "") (rw (p, q) at e))
  ]
  | inr p ↦ elim (Bool-cases (b == main)) [
    | inl q ↦ absurd (not_proxy (append (show_ℕ a) "") (sym (rw (p, q) at e)))
    | inr q ↦
        let digits = append_cancel_left "proxy-" _ _ (rw (p, q) at e) in
        show_ℕ-injective a b (append_cancel_right (show_ℕ a) (show_ℕ b) "" digits)
  ]
]

port_name-ne-admin : (main a : ℕ) → "admin" ≢ port_name main a
unfolding port_name
port_name-ne-admin main a = elim (Bool-cases (a == main)) [
  | inl p ↦ rw p (λ e. ground (arith, eq_iff "admin" "proxy"))
  | inr p ↦ rw p (not_admin (append (show_ℕ a) ""))
]

map-ports :
    {A B C : Type 0} (f : B → C) (g : A → B) (xs : List A) (b : B)
    → map f (map g xs ++ b ∷ []) ≡ map (λ x. f (g x)) xs ++ f b ∷ []
map-ports f g [] b = refl
map-ports f g (x ∷ xs) b = ap (λ ys. f (g x) ∷ ys) (map-ports f g xs b)

module _ (order : List ℕ → List ℕ) (any_order : (ports : List ℕ) → Permᴰ (order ports) ports)
    (proxy : ProxyServer) where
  ordered-NoRepeat : NoRepeat (order (ports_from [] proxy.spec.backends))
  ordered-NoRepeat =
      NoRepeat-perm (Permᴰ.symm (any_order (ports_from [] proxy.spec.backends)))
        (NoRepeat-ports_from [] proxy.spec.backends tt)

  main : ℕ
  main = or_port proxy.spec.port 443

  named_port : ℕ → ServicePort
  named_port p = service_port (port_name main p) p

  port-backend :
      (p : ℕ)
      → Has p (order (ports_from [] proxy.spec.backends))
      → (b : ProxyBackend) × Has b proxy.spec.backends × (b.port ≡ p)
  port-backend p inside =
      elim (Has-ports_from p [] proxy.spec.backends
        (Has-perm p (any_order (ports_from [] proxy.spec.backends)) inside)) [
          | inl nowhere ↦ absurd nowhere
          | inr found ↦ found
        ]

  -- No two ports of the Service of a proxy have the same name.
  pub names-NoRepeat : NoRepeat (map (λ s. s.name) (new_proxy_service order proxy).spec.ports)
  unfolding new_proxy_service service_ports main named_port
  names-NoRepeat =
      let ports = order (ports_from [] proxy.spec.backends) in
      rw (map-ports (λ s. s.name) named_port ports admin_port) (
        NoRepeat-snoc (map (port_name main) ports) "admin"
          (NoRepeat-map (port_name main) (port_name_injective main) ports ordered-NoRepeat)
          (λ h.
            let (p, inside, same) = Has-map_from (port_name main) "admin" ports h in
            port_name-ne-admin main p (sym same)))

  -- No two ports of the Service of a proxy have the same number, if no backend is on the port 9901
  -- of Envoy's administration. The order in which the ports are visited has to be a permutation.
  pub ports-NoRepeat :
      All (λ b. b.port ≢ 9901) proxy.spec.backends
      → NoRepeat (map (λ s. s.port) (new_proxy_service order proxy).spec.ports)
  unfolding new_proxy_service service_ports main named_port
  ports-NoRepeat apart =
      let ports = order (ports_from [] proxy.spec.backends) in
      rw (map-ports (λ s. s.port) named_port ports admin_port) (
        NoRepeat-snoc (map (λ p. p) ports) 9901
          (NoRepeat-map (λ p. p) (λ x y e. e) ports ordered-NoRepeat)
          (λ h.
            let (p, inside, same) = Has-map_from (λ p. p) 9901 ports h in
            let (b, there, at) = port-backend p inside in
            All-at (λ b. b.port ≢ 9901) b proxy.spec.backends there apart (at ∙ same)))

  -- The Service of a proxy reaches every listener: for each listener that the xDS server builds for
  -- the proxy, the Service has a port of that number that targets the same number, in whatever
  -- orders the two maps by port are visited. Each order has to be a permutation.
  pub listener-Has :
      (packs : Message → Bool) (visit : Groups → Groups)
      → ((gs : Groups) → Permᴰ (visit gs) gs)
      → (ls : List Listener) (cs : List Cluster) (l : Listener)
      → build_envoy_resources packs visit proxy ≡ ok (ls, cs)
      → Has l ls
      → (s : ServicePort) × Has s (new_proxy_service order proxy).spec.ports
        × (s.port ≡ l.address.port_value)
        × (s.target_port ≡ l.address.port_value)
  unfolding new_proxy_service service_ports main named_port keys group_by_port
  listener-Has packs visit any_visit ls cs l e here =
      let gs = group_by_port proxy.spec.backends in
      let exact : ls ≡ expected_listeners proxy (visit gs) =
        ap (λ (o : List Listener × List Cluster). o.0) (build_exact packs proxy visit (ls, cs) e) in
      let (port, bs, inside, same) = Has-expected proxy l (visit gs) (rw exact at here) in
      let key =
        Has-map (λ (g : ℕ × List ProxyBackend). g.0) (port, bs) gs
          (Has-perm (port, bs) (any_visit gs) inside) in
      let at : l.address.port_value ≡ port = ap (λ (x : Listener). x.address.port_value) same in
      (
        named_port port,
        Has-append_left (named_port port)
            (map named_port (order (ports_from [] proxy.spec.backends))) (admin_port ∷ [])
            (Has-map named_port port _ (
              Has-perm port (Permᴰ.symm (any_order (ports_from [] proxy.spec.backends)))
                (rw (keys-group_from [] proxy.spec.backends) at key))),
        sym at,
        sym at,
      )
