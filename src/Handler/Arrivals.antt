-- ===== src/Handler/Arrivals.antt =====
-- templemeads/src/handler.rs: the boards stay in order over any sequence of puts, updates and deletes.
use openportal.Base.{nat_eq, list_eq}
use openportal.Base.Text.{Text}
use openportal.Peer.{Peer}
use openportal.Job.{Job}
use openportal.Transfer.{Boards}
