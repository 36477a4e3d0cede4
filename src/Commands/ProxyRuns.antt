-- ===== src/Commands/ProxyRuns.antt =====
-- The command in the pod that the ProxyServer controller writes.
use oooi.Prelude.{
  ℕ, String, true, false, List, [], ◌∷◌, ◌++◌, All, ◌+◌, Option, some, ok, ◌≡◌, sym, ap, ◌∙◌, inl,
  inr, arith, show_ℕ, length, ◌===◌, Option-cases, Bool-cases,
}
use oooi.Api.Proxy.{ProxyServer}
use oooi.Xds.Server.{
  Control, XdsServer, new_xds_server, update_proxy_config, update_all, watch_proxy_servers,
}
use oooi.Xds.Versions.{LawfulCache, served}
use oooi.Xds.History.{watch-served}
use oooi.ProxyController.Bootstrap.{bootstrap}
use oooi.ProxyController.Pod.{manager_container}
use oooi.ProxyController.PodLaws.{ServedAt, bootstrap-ServedAt, xds_port}
use oooi.Commands.Proxy.{ProxyFlags, ProxyHost, stopped, after_watch, with_client, run_proxy}

-- The flags of the command line are read as they are written, a port in decimal.
abbrev pub Reads : (List String → Option ProxyFlags) → Type 0
Reads parse =
    (port : ℕ) (namespace name : String)
    → (flags : ProxyFlags) × (parse
          ("--xds-port" ∷ show_ℕ port ∷ "--namespace" ∷ namespace ∷ "--proxy-name" ∷ name ∷ [])
        ≡ some flags)
      × (flags.xds_port ≡ port)
      × (flags.namespace ≡ namespace)
      × (flags.proxy_name ≡ name)

tail_of : {a b : String} {xs ys : List String} → a ∷ xs ≡ b ∷ ys → xs ≡ ys
tail_of e = ground arith

module _ (c : Control) (laws : LawfulCache c.cache) (k : ProxyHost) (empty : c.Cache) where
  abbrev pub fresh : XdsServer c
  fresh = record { store = empty; proxies = []; snap_version = 0 }

  with_client-waits :
      (flags : ProxyFlags) (client : k.Client) (xs : XdsServer c)
      → with_client c k empty flags client ≡ stopped xs (ok tt)
      → (k.listens flags.xds_port ≡ true)
        × ((watch_proxy_servers c fresh (k.list_in client flags.namespace)).0 ≡ xs)
  unfolding with_client new_xds_server after_watch watch_proxy_servers
  with_client-waits flags client xs e = elim (Bool-cases (k.listens flags.xds_port)) [
    | inr closed ↦ absurd (ground arith)
    | inl open_ ↦ elim (Option-cases (k.list_in client flags.namespace)) [
      | inl q ↦ absurd (ground arith)
      | inr (items, q) ↦ (open_, ground arith)
    ]
  ]

  run_proxy-waits :
      (flags : ProxyFlags) (xs : XdsServer c)
      → run_proxy c k empty flags ≡ stopped xs (ok tt)
      → (client : k.Client) × (k.listens flags.xds_port ≡ true)
        × ((watch_proxy_servers c fresh (k.list_in client flags.namespace)).0 ≡ xs)
  unfolding run_proxy
  run_proxy-waits flags xs e = elim (Option-cases k.get_config) [
    | inl q ↦ absurd (ground arith)
    | inr (cfg, q) ↦ elim (Option-cases (k.new_client cfg)) [
      | inl r ↦ absurd (ground arith)
      | inr (client, r) ↦
          let (open_, watched) = with_client-waits flags client xs (ground arith) in
          (client, open_, watched)
    ]
  ]

  -- In the pod of a proxy, if the command of the manager container reads its arguments as they are
  -- written, makes its server and lists its ProxyServers, and so waits for a signal, then at its
  -- end Envoy is served: the bootstrap document names the port on which the command listens and, as
  -- its node, the proxy, and that node has a snapshot under the version of the proxy's place in the
  -- list. Each listing of the namespace has to give the same list, in which the name of the proxy
  -- is not listed again behind it, the update of the proxy itself has to succeed, and the cache has
  -- to be lawful; the other updates may fail.
  pub run_proxy-served :
      (parse : List String → Option ProxyFlags) (proxy : ProxyServer)
      (before behind : List ProxyServer) (rest : List String) (flags : ProxyFlags)
      (xs : XdsServer c)
      → Reads parse
      → (manager_container proxy).args ≡ "proxy" ∷ rest
      → parse rest ≡ some flags
      → run_proxy c k empty flags ≡ stopped xs (ok tt)
      → ((client : k.Client)
          → k.list_in client proxy.metadata.namespace ≡ some (before ++ proxy ∷ behind))
      → (update_proxy_config c (update_all c fresh before) proxy).1 ≡ ok tt
      → All (λ p. (p.metadata.name === proxy.metadata.name) ≡ false) behind
      → (s : c.Snapshot) × ServedAt (bootstrap proxy) proxy.metadata.name flags.xds_port
        × (k.listens flags.xds_port ≡ true)
        × (served c laws xs proxy.metadata.name ≡ some s)
        × (laws.version_of s ≡ show_ℕ (length before + 1))
  unfolding manager_container
  run_proxy-served parse proxy before behind rest flags xs reads args read ends listed good apart =
      let (client, open_, watched) = run_proxy-waits flags xs ends in
      let (flags1, read1, port, namespace, name) =
        reads (xds_port proxy) proxy.metadata.namespace proxy.metadata.name in
      let (s, serve, version) = watch-served c laws fresh before behind proxy good apart in
      let same : some flags1 ≡ some flags = sym read1 ∙ ap parse (tail_of args) ∙ read in
      let at_start : fresh.snap_version + length before + 1 ≡ length before + 1 = omega arith in
      let one : flags1 ≡ flags = ground arith in
      let at : flags.xds_port ≡ xds_port proxy = ap (λ f. f.xds_port) (sym one) ∙ port in
      let here : flags.namespace ≡ proxy.metadata.namespace =
        ap (λ f. f.namespace) (sym one) ∙ namespace in
      (
        s,
        rw at (bootstrap-ServedAt proxy).0,
        open_,
        ap (λ z. served c laws z proxy.metadata.name)
              (sym watched
                ∙ ap (λ l. (watch_proxy_servers c fresh l).0)
                    (ap (k.list_in client) here ∙ listed client))
            ∙ serve,
        version ∙ ap show_ℕ at_start,
      )
