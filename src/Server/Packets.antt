-- ===== src/Server/Packets.antt =====
-- The values that the services of the server hand one another: `offering`, `IcePacket` and
-- `AnsPacket` of server/offerer.go.
use yamrp.Prelude.{String}

pub record Offering : Type 0 where
  pub host_id : String
  pub answerer_id : String
  pub offer : String

pub record IcePacket : Type 0 where
  pub answerer_id : String
  pub ice_candidate : String

pub record AnsPacket : Type 0 where
  pub answerer_id : String
  pub answer : String
