-- ===== src/Xds/Targets.antt =====
-- Every filter chain proxies to a cluster that is built with it.
use oooi.Prelude.{
  Has-map, ℕ, String, Bool, List, [], ◌∷◌, ◌++◌, map, Option, none, some, ok, ◌≡◌, refl, ap, arith,
  Has, ◌==◌, Bool-cases, Option-cases, inl, inr, ◌⊎◌,
}
use oooi.Api.Proxy.{ProxyServer, ProxyBackend}
use oooi.Xds.Envoy.{
  Message, tcp_proxy, file_access_log, tls_inspector, Filter, FilterChain, Cluster, Listener,
}
use oooi.Xds.Build.{Groups, cluster_resource, cluster_name, build_envoy_resources, group_by_port}
use oooi.Xds.Grouping.{members}
use oooi.Xds.Ports.{
  expected_listeners, sni_chain, last_konnectivity, first_cluster, catch_all, expected_chains,
}
use oooi.Xds.Resources.{build_exact}
use oooi.Xds.Backends.{Has-expected, Has-members}

-- The clusters that the filters of some chains proxy to.
abbrev pub cluster_of : Message → List String
cluster_of (tcp_proxy prefix name) = name ∷ []
cluster_of (file_access_log path format) = []
cluster_of tls_inspector = []

abbrev pub filter_targets : List Filter → List String
filter_targets [] = []
filter_targets (f ∷ fs) = cluster_of f.typed_config ++ filter_targets fs

abbrev pub targets : List FilterChain → List String
targets [] = []
targets (c ∷ cs) = filter_targets c.filters ++ targets cs

Has-split :
    {C : Type 0} (name : String) (ns xs ys : List String)
    → (Has name xs → Has name ys ⊎ C)
    → Has name (ns ++ xs)
    → Has name (ns ++ ys) ⊎ C
Has-split name [] xs ys step here = step here
Has-split name (n ∷ ns) xs ys step (inl same) = inl (inl same)
Has-split name (n ∷ ns) xs ys step (inr there) = elim (Has-split name ns xs ys step there) [
  | inl left ↦ inl (inr left)
  | inr right ↦ inr right
]

targets-append :
    (name : String) (xs ys : List FilterChain)
    → Has name (targets (xs ++ ys))
    → Has name (targets xs) ⊎ Has name (targets ys)
targets-append name [] ys here = inr here
targets-append name (x ∷ xs) ys here =
    Has-split name (filter_targets x.filters) (targets (xs ++ ys)) (targets xs)
      (targets-append name xs ys) here

module _ (proxy : ProxyServer) where
  -- The cluster is that of one of the backends.
  abbrev Serves : String → List ProxyBackend → Type 0
  Serves name bs = (b : ProxyBackend) × Has b bs × (cluster_name proxy b ≡ name)

  sni-Serves :
      (name : String) (bs : List ProxyBackend)
      → Has name (targets (map (sni_chain proxy) bs))
      → Serves name bs
  sni-Serves name [] here = absurd here
  sni-Serves name (b ∷ bs) (inl same) = (b, inl refl, same)
  sni-Serves name (b ∷ bs) (inr there) =
      let (x, inside, same) = sni-Serves name bs there in (x, inr inside, same)

  last_konnectivity-Serves :
      (name : String) (bs : List ProxyBackend)
      → last_konnectivity proxy bs ≡ some name
      → Serves name bs
  unfolding last_konnectivity
  last_konnectivity-Serves name [] e = absurd (ground arith)
  last_konnectivity-Serves name (b ∷ bs) e = elim (Option-cases (last_konnectivity proxy bs)) [
    | inl q ↦ (b, inl refl, ground arith)
    | inr (n, q) ↦
        let (x, inside, same) = last_konnectivity-Serves name bs (ground arith) in
        (x, inr inside, same)
  ]

  catch_all-Serves :
      (name prefix : String) (o : Option String) (bs : List ProxyBackend)
      → ((n : String) → o ≡ some n → Serves n bs)
      → Has name (targets (catch_all proxy prefix o))
      → Serves name bs
  catch_all-Serves name prefix none bs each here = absurd here
  catch_all-Serves name prefix (some n) bs each (inl same) = rw (← same) (each n refl)
  catch_all-Serves name prefix (some n) bs each (inr there) = absurd there

  first_cluster-Serves :
      (name : String) (bs : List ProxyBackend) → first_cluster proxy bs ≡ some name → Serves name bs
  first_cluster-Serves name [] e = absurd (ground arith)
  first_cluster-Serves name (b ∷ bs) e = (b, inl refl, ground arith)

  -- Each chain of a port's listener proxies to a backend of that port.
  expected-Serves :
      (name : String) (port : ℕ) (bs : List ProxyBackend)
      → Has name (targets (expected_chains proxy port bs))
      → Serves name bs
  expected-Serves name port bs = elim (Bool-cases (port == 6443)) [
    | inl plain ↦ rw plain (
        catch_all-Serves name "plain-tcp" (first_cluster proxy bs) bs
          (λ n q. first_cluster-Serves n bs q))
    | inr other ↦ rw other (λ here. elim (targets-append name (map (sni_chain proxy) bs) _ here) [
      | inl sni ↦ sni-Serves name bs sni
      | inr rest ↦
          catch_all-Serves name "fallback" _ bs
            (λ n q. last_konnectivity-Serves n bs (ground arith)) rest
    ])
  ]

-- No built filter chain proxies to a cluster that is missing: each cluster named by a chain of a
-- built listener is among the clusters that are built with it.
pub targets-Has :
    (packs : Message → Bool) (order : Groups → Groups) (proxy : ProxyServer) (ls : List Listener)
    (cs : List Cluster) (l : Listener) (name : String)
    → build_envoy_resources packs order proxy ≡ ok (ls, cs)
    → Has l ls
    → Has name (targets l.filter_chains)
    → Has name (map (λ c. c.name) cs)
unfolding cluster_resource
targets-Has packs order proxy ls cs l name e here named =
    let gs = order (group_by_port proxy.spec.backends) in
    let exact = build_exact packs proxy order (ls, cs) e in
    let listeners : ls ≡ expected_listeners proxy gs =
      ap (λ (o : List Listener × List Cluster). o.0) exact in
    let clusters : cs ≡ map (cluster_resource proxy) (members gs) =
      ap (λ (o : List Listener × List Cluster). o.1) exact in
    let (port, bs, inside, same) = Has-expected proxy l gs (rw listeners at here) in
    let (b, of_port, is) = expected-Serves proxy name port bs (rw same at named) in
    rw (clusters, ← is)
      (Has-map (λ (c : Cluster). c.name) (cluster_resource proxy b)
        (map (cluster_resource proxy) (members gs))
        (Has-map (cluster_resource proxy) b (members gs) (Has-members b port bs gs inside of_port)))
