-- ===== src/Xds/Reachable.antt =====
-- Which addresses a node's Envoy dials (buildLoadAssignment of internal/xds/builder.go).
use k_lite.Common.{String, false, true, ◌↔◌, ◌≡◌, ◌≢◌, ◌⊎◌}
use k_lite.Common.Int.{pos, ◌≤ℤ◌}
use k_lite.Net.{Endpoint, health_draining}
use k_lite.Xds.{LbEndpoint, unhealthy_draining}

-- How an endpoint is dialled from a node: at its own address if it is on the node or names no node,
-- and otherwise through the ingress port of its machine, with the node's certificate.
pub data Dials (node : String) (e : Endpoint) (lb : LbEndpoint) : Type 0 where
  locally :
      (e.node ≡ "") ⊎ (e.node ≡ node)
      → lb.host ≡ e.ip
      → lb.port ≡ e.port
      → lb.ingress_mtls ≡ false
      → Dials node e lb
  remotely :
      e.node ≢ node
      → lb.host ≡ e.machine_address
      → lb.host ≢ ""
      → lb.port ≡ e.ingress_port
      → pos 1 ≤ℤ lb.port
      → lb.ingress_mtls ≡ true
      → Dials node e lb

-- A draining endpoint is marked so that no new connection goes to it.
abbrev pub KeepsHealth : Endpoint → LbEndpoint → Type 0
KeepsHealth e lb = (lb.health ≡ unhealthy_draining) ↔ (e.health ≡ health_draining)
