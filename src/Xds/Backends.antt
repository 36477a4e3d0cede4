-- ===== src/Xds/Backends.antt =====
-- What the built resources say of each backend, whatever the order of Go's range over the ports.
use mathlib.Core.List.{Perm, Permᴰ, perm_append_comm, append_assoc}
use mathlib.Core.List.Perm
use oooi.Prelude.{
  Has-perm, ℕ, Bool, List, [], ◌∷◌, ◌++◌, map, ok, ◌≡◌, refl, sym, ap, ◌∙◌, arith, Has,
  Has-append_left, Has-append_right, select, ◌==◌, inl, inr, ◌≤◌,
}
use oooi.Api.Proxy.{ProxyServer, ProxyBackend}
use oooi.Xds.Envoy.{Message, Cluster, Listener}
use oooi.Xds.Build.{Groups, cluster_resource, build_envoy_resources, group_by_port}
use oooi.Xds.Grouping.{
  members, group_by_port-perm, backends_of, backends_of-group_by_port, count_port,
  count_port-group_from,
}
use oooi.Xds.Ports.{expected_listeners, expected_listener}
use oooi.Xds.Resources.{build_exact}

perm_swap : (xs ys zs : List ProxyBackend) → Perm (xs ++ (ys ++ zs)) (ys ++ (xs ++ zs))
perm_swap xs ys zs =
    rw (← append_assoc xs ys zs, ← append_assoc ys xs zs)
      (Perm.append_right zs (perm_append_comm xs ys))

pub members-perm : {gs hs : Groups} → Permᴰ gs hs → Perm (members gs) (members hs)
members-perm Permᴰ.nil = Perm.refl []
members-perm (Permᴰ.cons {a = (p, bs)} {b = (q, cs)} e d) =
    let same : bs ≡ cs = ap (λ (g : ℕ × List ProxyBackend). g.1) e in
    Perm.append (rw same (Perm.refl cs)) (members-perm d)
members-perm (Permᴰ.swap {a = (p, bs)} {b = (q, cs)} {a' = (r, ds)} {b' = (s, es)} {l = l} e f) =
    let first : bs ≡ es = ap (λ (g : ℕ × List ProxyBackend). g.1) e in
    let second : cs ≡ ds = ap (λ (g : ℕ × List ProxyBackend). g.1) f in
    rw (first, second) (perm_swap es ds (members l))
members-perm (Permᴰ.trans d e) = Perm.trans (members-perm d) (members-perm e)

count_port-Has :
    (port : ℕ) (bs : List ProxyBackend) (gs : Groups) → Has (port, bs) gs → 1 ≤ count_port port gs
unfolding count_port
count_port-Has port bs [] here = absurd here
count_port-Has port bs ((p, cs) ∷ gs) (inl same) = ground arith
count_port-Has port bs ((p, cs) ∷ gs) (inr there) = ground (arith, count_port-Has port bs gs there)

backends_of-Has :
    (port : ℕ) (bs : List ProxyBackend) (gs : Groups)
    → count_port port gs ≤ 1
    → Has (port, bs) gs
    → backends_of port gs ≡ bs
unfolding count_port backends_of
backends_of-Has port bs [] one here = absurd here
backends_of-Has port bs ((p, cs) ∷ gs) one (inl same) = ground arith
backends_of-Has port bs ((p, cs) ∷ gs) one (inr there) =
    ground (arith, backends_of-Has port bs gs, count_port-Has port bs gs there)

-- A group is the backends of its port.
pub group-select :
    (port : ℕ) (bs all : List ProxyBackend)
    → Has (port, bs) (group_by_port all)
    → bs ≡ select (λ b. b.port == port) all
group-select port bs all here =
    sym (backends_of-Has port bs (group_by_port all) (one all port) here)
    ∙ backends_of-group_by_port port all
  where
    one : (all : List ProxyBackend) (port : ℕ) → count_port port (group_by_port all) ≤ 1
    one all port =
        unfold group_by_port count_port in count_port-group_from [] all port (omega arith)

pub Has-members :
    (b : ProxyBackend) (port : ℕ) (bs : List ProxyBackend) (gs : Groups)
    → Has (port, bs) gs
    → Has b bs
    → Has b (members gs)
Has-members b port bs [] here inside = absurd here
Has-members b port bs ((p, cs) ∷ gs) (inl same) inside =
    let equal : cs ≡ bs = ap (λ (g : ℕ × List ProxyBackend). g.1) same in
    Has-append_left b cs (members gs) (rw equal inside)
Has-members b port bs ((p, cs) ∷ gs) (inr there) inside =
    Has-append_right b cs (members gs) (Has-members b port bs gs there inside)

pub Has-expected :
    (proxy : ProxyServer) (l : Listener) (gs : Groups)
    → Has l (expected_listeners proxy gs)
    → (port : ℕ) × (bs : List ProxyBackend) × Has (port, bs) gs
      × (l ≡ expected_listener proxy port bs)
Has-expected proxy l [] here = absurd here
Has-expected proxy l ((p, bs) ∷ gs) (inl same) = (p, bs, inl refl, sym same)
Has-expected proxy l ((p, bs) ∷ gs) (inr there) =
    let (q, cs, inside, same) = Has-expected proxy l gs there in (q, cs, inr inside, same)

module _ (packs : Message → Bool) (order : Groups → Groups) (proxy : ProxyServer)
    (any_order : (gs : Groups) → Permᴰ (order gs) gs) where
  -- In whatever order the ports are visited, the clusters that are built are those of the backends
  -- of the proxy, one for each, and no other.
  pub clusters-perm :
      (ls : List Listener) (cs : List Cluster)
      → build_envoy_resources packs order proxy ≡ ok (ls, cs)
      → Perm cs (map (cluster_resource proxy) proxy.spec.backends)
  clusters-perm ls cs e =
      let gs = group_by_port proxy.spec.backends in
      let exact : cs ≡ map (cluster_resource proxy) (members (order gs)) =
        ap (λ (o : List Listener × List Cluster). o.1) (build_exact packs proxy order (ls, cs) e) in
      rw exact (
        Perm.map (cluster_resource proxy)
          (Perm.trans (members-perm (any_order gs)) (group_by_port-perm proxy.spec.backends)))

  -- In whatever order the ports are visited, a built listener is the one described for the backends
  -- of its own port, in the order of the specification.
  pub listener_of_port :
      (ls : List Listener) (cs : List Cluster) (l : Listener)
      → build_envoy_resources packs order proxy ≡ ok (ls, cs)
      → Has l ls
      → l
        ≡ expected_listener proxy l.address.port_value
            (select (λ b. b.port == l.address.port_value) proxy.spec.backends)
  listener_of_port ls cs l e here =
      let gs = group_by_port proxy.spec.backends in
      let exact : ls ≡ expected_listeners proxy (order gs) =
        ap (λ (o : List Listener × List Cluster). o.0) (build_exact packs proxy order (ls, cs) e) in
      let (port, bs, inside, same) = Has-expected proxy l (order gs) (rw exact at here) in
      let group =
        group-select port bs proxy.spec.backends (Has-perm (port, bs) (any_order gs) inside) in
      let at : l.address.port_value ≡ port = ap (λ (x : Listener). x.address.port_value) same in
      let all = proxy.spec.backends in
      same
      ∙ ap (expected_listener proxy port) group
      ∙ ap (λ p. expected_listener proxy p (select (λ b. b.port == p) all)) (sym at)
