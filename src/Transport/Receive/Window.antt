-- ===== src/Transport/Receive/Window.antt =====
-- The test of a sequence number against the receiver's window, and the acknowledgement's number.
use network_layer_full.Base.{ℕ, ◌+◌, ◌^◌, ◌≤◌, ◌<◌, ◌≡◌, ◌↔◌, arith}
use network_layer_full.Transport.Segment.{Segment, max_seq_num, transport_header_size}
use network_layer_full.Transport.Point.{ServicePoint, window_start, window_end}
use network_layer_full.Transport.Connect.{Received, behind}
use network_layer_full.Transport.Receive.{again, judge}
use network_layer_full.Transport.Sender.{Sender, cut_size, next_segment, after_segment}

-- When the window goes round past the greatest number, a segment whose number is past it and
-- inside the window is acknowledged, but not stored.
pub judge_wrapped :
    (p : ServicePoint) (seq : ℕ)
    → 0 < p.window_size
    → p.window_size < 2 ^ 16
    → p.seq_num_r < max_seq_num
    → p.window_size ≤ p.seq_num_r
    → p.prev_seq_num_r ≡ window_start p.seq_num_r p.window_size
    → p.end_seq_num_r ≡ window_end p.seq_num_r p.window_size
    → 2 ^ 32 ≤ p.seq_num_r + p.window_size
    → seq ≤ p.end_seq_num_r
    → judge p seq ≡ again
unfolding judge
judge_wrapped p seq pos small top low ep ee wraps inside = ground arith

-- The number that the receiver of a segment of `n` bytes acknowledges is the one that its sender
-- awaits, exactly when the addition in the sender's 32 bits does not overflow.
pub behind-eq_awaited :
    (s : Sender) (raw : Segment) (host : ℕ)
    → s.point.seq_num_s < max_seq_num
    → cut_size s < 2 ^ 16
    → let recv : Received = record {
      segment = next_segment s raw;
      size = cut_size s + transport_header_size;
      src = host;
    } in
      (behind recv ≡ (after_segment s).point.seq_num_s) ↔ (s.point.seq_num_s + cut_size s < 2 ^ 32)
unfolding after_segment
behind-eq_awaited s raw host top small = (λ e. omega arith, λ lt. omega arith)
