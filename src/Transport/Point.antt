-- ===== src/Transport/Point.antt =====
-- `servicepoint_t` and the table of service points: transport_layer/transport_layer.h, and
-- `getfreeslot`, `alloc_service_point`, `dalloc_service_point` of transport_layer.c.
pub mod Table
use network_layer_full.Base.{
  ℕ, ◌+◌, ◌-◌, ◌%◌, ◌^◌, Bool, false, Option, none, some, List, [], ◌∷◌, set, u32,
}
use network_layer_full.Transport.Segment.{Segment, max_seq_num}
use network_layer_full.Transport.Segs.{Entry}
use network_layer_full.Transport.Acks.{Ack}

-- The fields that the modelled functions use. `con_held` says that `mutex_con` is held by nobody
-- who will release it, `buffer_full` that `mutex_prod` is held until the sending thread is done.
pub record ServicePoint : Type 0 where
  pub dest : ℕ
  pub dest_sp : ℕ
  pub window_size : ℕ
  pub flag_con : ℕ
  pub con_held : Bool
  pub seq_num_s : ℕ
  pub prev_seq_num_s : ℕ
  pub end_seq_num_s : ℕ
  pub seq_num_r : ℕ
  pub prev_seq_num_r : ℕ
  pub end_seq_num_r : ℕ
  pub acks : List Ack
  pub segs : List Entry
  pub segs_aux : List Entry
  pub send_buff : List ℕ
  pub send_size : ℕ
  pub buffer_full : Bool

-- What a function hands on: a segment of `size` payload bytes to a new `seg_send_thread`, which
-- repeats it until it is acknowledged, or a segment to the network once.
pub data Output : Type 0 where
  spawned : Segment → ℕ → Output
  sent_once : ℕ → List ℕ → Output

-- The end of a call: its value, the service point and what was handed on; or the call waits at
-- a mutex; or it reads memory that has been freed, after which nothing is known.
pub data Call {ℓ} (A : Type ℓ) : Type ℓ where
  done : A → ServicePoint → List Output → Call A
  blocked fault : Call A

-- (x + 1) % MAX_SEQ_NUM for a `uint32_t`
abbrev pub next_seq : ℕ → ℕ
next_seq x = u32 (x + 1) % max_seq_num

-- (x + (MAX_SEQ_NUM - w)) % MAX_SEQ_NUM
abbrev pub window_start : ℕ → ℕ → ℕ
window_start x w = (x + (max_seq_num - w)) % max_seq_num

-- (x + w) % MAX_SEQ_NUM for 32-bit summands
abbrev pub window_end : ℕ → ℕ → ℕ
window_end x w = u32 (x + w) % max_seq_num

-- MAX_SERVICE_POINTS
abbrev pub max_service_points : ℕ
max_service_points = 16

abbrev pub Points : Type 0
Points = List (Option ServicePoint)

-- The first free index from `i` on; `none` is ERROR.
unfoldable pub getfreeslot : Points → ℕ → Option ℕ
getfreeslot [] i = none
getfreeslot (none ∷ ps) i = some i
getfreeslot (some p ∷ ps) i = getfreeslot ps (i + 1)

-- The fields that are not initialised have what `malloc` returned.
unfoldable pub fresh : ServicePoint → ServicePoint
fresh raw = record raw {
  dest = 0;
  dest_sp = 0;
  flag_con = 0;
  con_held = false;
  acks = [];
  segs = [];
  segs_aux = [];
  send_buff = [];
  buffer_full = false;
}

-- The returned number, ERROR being 65535 as a `uint16_t`, and the table.
unfoldable pub alloc_at : ServicePoint → Points → Option ℕ → ℕ × Points
unfolding fresh
alloc_at raw ps none = (2 ^ 16 - 1, ps)
alloc_at raw ps (some slot) = (slot, set ps slot (some (fresh raw)))

unfoldable pub alloc_service_point : ServicePoint → Points → ℕ × Points
unfolding alloc_at getfreeslot
alloc_service_point raw ps = alloc_at raw ps (getfreeslot ps 0)

unfoldable pub dalloc_service_point : Points → ℕ → Points
dalloc_service_point ps point = set ps point none
