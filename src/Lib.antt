-- ===== src/Lib.antt =====
-- oooi: the infrastructure of hosted OpenShift clusters on a secondary network.
--
-- An `Infra` resource asks for three servers on a network of virtual machines: DHCP, DNS and a
-- proxy in front of the hosted control plane. The Infra controller creates a `DHCPServer`, a
-- `DNSServer` and a `ProxyServer` for it and keeps their specs as the Infra asks. The DHCP server is
-- coredhcp with two plugins of this repository: `leasedb` leases addresses and stores them in a
-- table, and `kubevirt` names the clients after their virtual machines. The proxy is Envoy, and the
-- xDS server turns each `ProxyServer` into Envoy's listeners and clusters and serves them as
-- versioned snapshots.
--
-- The modules, and the files that they are about:
-- - Prelude: tests, lists, texts, results and association lists that the others share. A Go map is
--   an association list; `fmt.Sprintf` is concatenation, with `%d` as `show_ℕ`.
-- - Api: api/v1alpha1, the custom resources (`infra_types.go` in Api.Infra, and so on), and the
--   metadata of Kubernetes in Api.Meta and Api.Network.
-- - Time: instants and durations of the package time, in nanoseconds.
-- - Packet: what the two plugins read and write of a DHCPv4 packet.
-- - Leases: internal/dhcp/plugins/leasedb. `Handler4` is Leases.Handler.handler4, `setupRange` is
--   Leases.Setup.setup_range, and storage.go is Leases.Storage. Leases.Host has the interfaces of
--   the package net, of the allocator of coredhcp and of database/sql, with their laws.
-- - Kubevirt: internal/dhcp/plugins/kubevirt/plugin.go. The handler is Kubevirt.Plugin.handler4.
-- - Xds: internal/proxy/server.go. `buildEnvoyResources` is Xds.Build.build_envoy_resources, with
--   one definition for each part of its loops, and `XDSServer` with its methods is Xds.Server.
--   go-control-plane is the interface Xds.Server.Control, with the laws of its snapshot cache in
--   Xds.Versions. Xds.Ports describes the listeners without following the loops, and
--   Xds.Exact has all that is built for a proxy.
-- - Infra: internal/controller/infra_controller.go. Infra.Desired has the builders, such as
--   `proxyServerForInfra`, and Infra.Reconcile has `Reconcile` and its steps. Infra.Cluster is the
--   interface of controller-runtime's client, one `Kind` for each kind of object, and the laws are
--   in Infra.Cluster and Infra.Steps.
-- - Retry: internal/controller/utils.go and the functions of the same name in the DNSServer and
--   ProxyServer controllers, `createOrUpdateWithRetries`. The backoff of apimachinery is an
--   interface with its laws in Retry.Laws.
-- - Workloads: what the controllers of the three servers share. Workloads.Kinds is the interface of
--   the API server, one `Kind` for each kind of object, with its laws in Workloads.Laws; a step that
--   sets the controller reference and creates or updates one object is Workloads.Ensure, and what a
--   step stores and leaves alone is in Workloads.Stored, Kept, Apart and Stale.
-- - DhcpController, DnsController, ProxyController: `dhcpserver_controller.go`,
--   `dnsserver_controller.go` and `proxy_server_controller.go` of internal/controller. Reconcile has
--   `Reconcile` and the steps of its ensure function, one definition for each; Config, Corefile,
--   Bootstrap, Objects, Pod and Service have the builders. The texts that the builders format are
--   written out. DnsController.Hosts reads the lines of a hosts section, an address and a name each,
--   with net.ParseIP as a parameter; comments are not read, and DnsController.Refines shows that
--   there are none. DnsController.Views and Refines are what the two views of the Corefile promise:
--   Views takes the first line with a name as it is written, and Refines all lines with it, names
--   being normalised by a parameter, as the hosts plugin does.
--   ProxyController.Bootstrap has internal/proxy/envoy/config.go as well.
-- - DhcpServer: internal/dhcp/server.go, with coredhcp as an interface, and in DhcpServer.Chain the
--   kubevirt and leasedb plugins one behind the other, as the DHCPServer controller configures them.
--   DhcpServer.Configured reads the rows of the configuration that the controller writes, and
--   DhcpServer.Range is how the plugin starts from them.
-- - Manager: cmd/manager.go, with controller-runtime's manager as an interface.
-- - Dns: internal/dns/server.go. `Start`, its shutdown handler and `Stop` are functions on the
--   server's state, and Dns.Server.Step is any one of them, or an act of the surroundings.
-- - Commands: cmd/proxy.go, `runProxy` as Commands.Proxy.run_proxy, and cmd/dns.go, `runDNS` as the
--   steps of Commands.Dns around those of the DNS server.
-- Examples in each part run the definitions on concrete data, with the interfaces filled in the
-- Sample module beside them.
--
-- State is passed explicitly: an operation takes the state and gives the new state with its result.
-- A mutex that a method holds from its start to its end makes the calls follow one another, so that
-- a history is a list of requests. Errors are values: an `Outcome` with the error's cause, or an
-- `Option` where the source tells no causes apart. The loops are over lists, and are structural
-- recursion, so that no fuel is needed, but for the retry loop, which the backoff bounds by its
-- steps; `show_ℕ` takes fuel, one round more than the number, which has no more digits than that.
-- Where Go goes over a map, the order is a parameter, or the order of the list.
--
-- Not modelled: int64 overflow of times, the text of errors and logs, the difference of a nil and
-- an empty slice in reflect.DeepEqual, other clients of the API server that act during a run of the
-- Infra, DNSServer and ProxyServer controllers, the fields of Kubernetes' objects that the code never
-- sets, the units of resource quantities beyond bytes and thousandths of a CPU, the gRPC server, the
-- registration of the controllers and of the flags, the commands root and dhcp, which only call
-- cobra and DhcpServer.Run, and generated code.
pub mod Prelude
pub mod Api
pub mod Time
pub mod Packet
pub mod Leases
pub mod Kubevirt
pub mod Xds
pub mod Infra
pub mod Retry
pub mod Workloads
pub mod DhcpServer
pub mod DhcpController
pub mod DnsController
pub mod ProxyController
pub mod Dns
pub mod Manager
pub mod Commands
