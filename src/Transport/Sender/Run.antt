-- ===== src/Transport/Sender/Run.antt =====
-- The events of a sender, and a run over them.
use network_layer_full.Base.{ℕ, Option, none, some, ◌>>=◌, List, [], ◌∷◌, ◌++◌, length, take}
use network_layer_full.Transport.Segment.{Segment}
use network_layer_full.Transport.Acks.{set_ack}
use network_layer_full.Transport.Point.{Output, Call, done, blocked, fault}
use network_layer_full.Transport.Sender.{send_point, Sender, send_thread}

-- The application hands over bytes, the thread makes a turn, or an acknowledgement arrives.
pub data Event : Type 0 where
  gives : List ℕ → Event
  turns : Segment → Event
  hears : ℕ → Event

-- The bytes taken from the application, the segments handed on, and the sender.
pub record Round : Type 0 where
  pub accepted : List ℕ
  pub outputs : List Output
  pub sender : Sender

unfoldable pub given : Sender → List ℕ → Call ℕ → Round
given s bytes blocked = record { accepted = []; outputs = []; sender = s }
given s bytes fault = record { accepted = []; outputs = []; sender = s }
given s bytes (done n p outputs) = record {
  accepted = take n bytes;
  outputs = [];
  sender = record s { point = p };
}

unfoldable pub turned : Option (List Output × Sender) → Option Round
turned none = none
turned (some (out, s)) = some (record { accepted = []; outputs = out; sender = s })

unfoldable pub step : Sender → Event → Option Round
unfolding given turned
step s (gives bytes) = some (given s bytes (send_point s.point bytes (length bytes)))
step s (turns raw) = turned (send_thread s raw)
step s (hears num) = some (record {
  accepted = [];
  outputs = [];
  sender = record s { point = record (s.point) { acks = set_ack s.point.acks num } };
})

unfoldable pub run : Sender → List Event → Option Round
unfolding step
run s [] = some (record { accepted = []; outputs = []; sender = s })
run s (e ∷ es) = do
  now ← step s e
  later ← run now.sender es
  some (record {
    accepted = now.accepted ++ later.accepted;
    outputs = now.outputs ++ later.outputs;
    sender = later.sender;
  })
