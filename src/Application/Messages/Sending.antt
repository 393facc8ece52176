-- ===== src/Application/Messages/Sending.antt =====
-- A message is handed to the transport layer, or the loop of `send_ips` does not end.
use network_layer_full.Base.{
  ℕ, suc, ◌+◌, ◌-◌, ◌%◌, ◌^◌, ◌≤◌, ◌<◌, ◌≡◌, ◌≢◌, refl, true, false, Bool-cases, inl, inr, none,
  some, List, [], ◌∷◌, arith, if◌then◌else◌, ◌==◌, eq→==, ne→not_==, All, length, take-all, u32,
  size_mod,
}
use network_layer_full.Transport.Point.{ServicePoint}
use network_layer_full.Transport.Sender.{taken_size, send_point}
use network_layer_full.Application.Messages.{Outbox, Sent, after_send, send_ips}

-- A connection that no other call of the application keeps locked.
pub record IsOpen (p : ServicePoint) : Type 0 where
  pub unlocked : p.con_held ≡ false
  pub connected : p.flag_con ≡ 2

-- How often the last buffer is sent.
unfoldable pub free : Outbox → ℕ
free [] = 0
free (p ∷ points) = if p.buffer_full then free points else suc (free points)

-- The bytes are taken, and `k` calls more can be served.
pub record Taken (k : ℕ) (bytes : List ℕ) (out : Sent) : Type 0 where
  pub points : Outbox
  pub all_taken : out ≡ some (bytes, points)
  pub still_open : All IsOpen points
  pub still_free : k ≤ free points

-- While every call finds an open connection, and one of them, with `k` to spare, the last buffer
-- sent, `send_ips` hands over all bytes of a message of 1 to 32,000 bytes in one piece.
pub send_ips-Taken :
    (points : Outbox) (buf : List ℕ) (k : ℕ)
    → All IsOpen points
    → suc k ≤ free points
    → 0 < length buf
    → length buf ≤ 32000
    → Taken k buf (send_ips points buf (length buf))
unfolding send_ips after_send send_point free
send_ips-Taken [] buf k all room pos small = absurd (omega arith)
send_ips-Taken (p ∷ points) buf k all room pos small =
    let conn : (p.flag_con == 2) ≡ true = eq→== p.flag_con 2 all.0.connected in
    elim (Bool-cases p.buffer_full) [
      | inl full ↦
          rw (all.0.unlocked, conn, full)
            (send_ips-Taken points buf k all.1 (rw full at room) pos small)
      | inr there ↦
          let tam : taken_size (length buf) ≡ length buf = ground arith in
          let same : u32 (length buf) ≡ length buf = omega arith in
          let stop : ((length buf + size_mod - length buf) % size_mod == 0) ≡ true = ground arith in
          rw (all.0.unlocked, conn, there, tam, same, stop)
            (record {
              points = points;
              all_taken = rw (take-all (length buf) buf (omega arith));
              still_open = all.1;
              still_free = let r = rw there at room in omega arith;
            })
    ]

-- While no call finds a connection, `send_ips` does not return, for any number of bytes but 0.
pub send_ips-endless :
    (points : Outbox) (buf : List ℕ) (size : ℕ)
    → All (λ (p : ServicePoint). p.flag_con ≢ 2) points
    → 0 < size
    → size < 2 ^ 64
    → send_ips points buf size ≡ none
unfolding send_ips after_send send_point
send_ips-endless [] buf size none_open pos small = refl
send_ips-endless (p ∷ points) buf size none_open pos small =
    let ih = send_ips-endless points buf size none_open.1 pos small in
    let unconn : (p.flag_con == 2) ≡ false = ne→not_== p.flag_con 2 none_open.0 in
    elim (Bool-cases p.con_held) [
      | inl locked ↦ rw locked ih
      | inr free_lock ↦
          let left : (size + size_mod - 0) % size_mod ≡ size = omega arith in
          let more : (size == 0) ≡ false = ground arith in rw (free_lock, unconn, left, more, ih)
    ]
