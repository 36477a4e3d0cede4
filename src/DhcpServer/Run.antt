-- ===== src/DhcpServer/Run.antt =====
-- Run of internal/dhcp/server.go. coredhcp is a parameter.
use oooi.Prelude.{String, List, [], ◌∷◌, Outcome, ok, err}

-- The plugins by the packages that they are from.
pub data Plugin : Type 0 where
  dns mtu netmask nbp prefix router server_id search_domains sleep static_route : Plugin
  kubevirt leasedb : Plugin

abbrev pub plugins : List Plugin
plugins =
    dns ∷ mtu ∷ netmask ∷ nbp ∷ prefix ∷ router ∷ server_id ∷ search_domains ∷ sleep ∷ static_route
    ∷ kubevirt ∷ leasedb ∷ []

-- dhcpconfig.Load, dhcpplugins.RegisterPlugin, dhcpserver.Start and Wait. The plugins that are
-- registered are coredhcp's global state.
pub record Coredhcp (E : Type 0) : Type 1 where
  pub Config : Type 0
  pub Registry : Type 0
  pub Servers : Type 0
  pub load : String → Outcome E Config
  pub register_plugin : Plugin → Registry → Outcome E (Unit {0}) × Registry
  pub start : Config → Registry → Outcome E Servers
  pub wait : Servers → Outcome E (Unit {0})

module _ {E : Type 0} (c : Coredhcp E) where
  unfoldable pub register_all : List Plugin → c.Registry → Outcome E (Unit {0}) × c.Registry
  register_all [] r = (ok tt, r)
  register_all (p ∷ ps) r =
      let out = c.register_plugin p r in
      let rest = register_all ps out.1 in elim out.0 [ err e ↦ (err e, out.1) | ok done ↦ rest ]

  -- `srv.Wait` behind `dhcpserver.Start`.
  unfoldable pub serve : c.Config → c.Registry → Outcome E (Unit {0})
  serve cfg r = elim (c.start cfg r) [ err e ↦ err e | ok servers ↦ c.wait servers ]

  unfoldable pub run : String → c.Registry → Outcome E (Unit {0}) × c.Registry
  unfolding register_all serve
  run file r = elim (c.load file) [
    | err e ↦ (err e, r)
    | ok cfg ↦
        let out = register_all plugins r in
        elim out.0 [ err e ↦ (err e, out.1) | ok done ↦ (serve cfg out.1, out.1) ]
  ]
