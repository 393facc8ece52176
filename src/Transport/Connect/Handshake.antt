-- ===== src/Transport/Connect/Handshake.antt =====
-- What two ends have when they are connected to each other, and a segment of one byte of payload:
-- transport_layer/transport_layer.c.
use network_layer_full.Base.{ℕ, ◌+◌, ◌≡◌}
use network_layer_full.Transport.Segment.{Segment, transport_header_size}
use network_layer_full.Transport.Point.{ServicePoint}
use network_layer_full.Transport.Connect.{Received}

-- Both ends are connected to each other: each expects the number that the other sends next, and
-- has the other's window.
pub record AreConnected (p q : ServicePoint) (host_p host_q sp_p sp_q : ℕ) : Type 0 where
  pub open_p : p.flag_con ≡ 2
  pub open_q : q.flag_con ≡ 2
  pub p_to_q : q.seq_num_r ≡ p.seq_num_s
  pub q_to_p : p.seq_num_r ≡ q.seq_num_s
  pub windows : p.window_size ≡ q.window_size
  pub names_p : (p.dest ≡ host_q) × (p.dest_sp ≡ sp_q)
  pub names_q : (q.dest ≡ host_p) × (q.dest_sp ≡ sp_p)

-- A segment arrives with one byte of payload.
abbrev pub arrived : Segment → ℕ → Received
arrived seg host = record { segment = seg; size = 1 + transport_header_size; src = host }
