-- ===== src/Peer/Tests.antt =====
-- A concrete peer.
use openportal.Base.Text.{text}
use openportal.Peer.{Peer}

abbrev provider : Peer
provider = record { name = text "provider"; zone = text "waldur" }
