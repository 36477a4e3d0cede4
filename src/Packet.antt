-- ===== src/Packet.antt =====
-- The parts of a DHCPv4 packet that the two plugins under internal/dhcp/plugins read and write.
use oooi.Prelude.{ℕ, String, List, Option}
use oooi.Time.{Duration}

-- `hardware_addr` is the bytes of `ClientHWAddr`.
pub record Request : Type 0 where
  pub hardware_addr : List ℕ

-- `lease_time` and `host_name` are the options that OptIPAddressLeaseTime and OptHostName set.
pub record Response : Type 0 where
  pub your_ip_addr : Option ℕ
  pub lease_time : Option Duration
  pub host_name : Option String
