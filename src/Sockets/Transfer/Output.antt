-- ===== src/Sockets/Transfer/Output.antt =====
-- What recv returns.
use mathlib.Core.Path.{subst}
use wiznet_driver.Base.{ℕ, ◌+◌, ◌-◌, ◌≡◌, ◌≤◌, ◌<◌, refl, ap, arith}
use wiznet_driver.Base.{true, false, not, ◌&&◌, ◌||◌, ltb, leb, ◌==◌, Bool-cases, inl, inr}
use wiznet_driver.Base.{some, List, [], ◌∷◌, length, drop, length-append}
use wiznet_driver.Memory.{Memory, Pointer, load, advance}
use wiznet_driver.Queue.Valid.{IsValid}
use wiznet_driver.Queue.Window.{contents, length-window}
use wiznet_driver.Driver.{World, Hal, Segment, sock_num, socket_queue_size}
use wiznet_driver.Driver.Pending.{receive_pending_data}
use wiznet_driver.Sockets.Transfer.{data_len, recv, recv_loop}
use wiznet_driver.Sockets.Transfer.Received.{
  fitting, data_of, received, IsTaken, recv_loop-IsTaken, length-load,
}

length-data_of :
    (p : Pointer) (m : Memory) (room : ℕ) (l : List Segment)
    → length (data_of p m (fitting room l)) ≤ room
length-data_of p m room [] = omega arith
length-data_of p m room (g ∷ gs) = elim (Bool-cases (ltb 0 room && leb (data_len g) room)) [
  | inl fits ↦
      (let at = advance p (g.start_index + 3) in
        let ih = length-data_of p m (room - data_len g) gs in
        let size =
          length-append (load m at (data_len g)) (data_of p m (fitting (room - data_len g) gs)) in
        let data_size = length-load m at (data_len g) in
        let within : data_len g ≤ room = ground arith in rw fits (omega arith))
  | inr full ↦ rw full (omega arith)
]

module _ (hal : Hal) (sn : ℕ) where
  -- For a socket of the chip with a buffer and a valid queue, and a length that is not 0, recv
  -- returns at most `len` bytes: the data of the longest prefix of the queued segments that fits
  -- into `len` bytes, in order. It removes these segments from the queue, keeps the others and the
  -- memory, and then asks for what the chip has received.
  pub recv-data_of :
      (p : Pointer) (len : ℕ) (w : World)
      → sn < sock_num
      → 0 < len
      → IsValid socket_queue_size (received sn w)
      → (w.sockets sn).rx_buf ≡ some p
      → let queued = contents socket_queue_size (received sn w) in
        let out = data_of p w.memory (fitting len queued) in
        (w1 : World) × (recv hal sn true len w ≡ (out, receive_pending_data hal sn w1))
        × (contents socket_queue_size (received sn w1) ≡ drop (length (fitting len queued)) queued)
        × (w1.memory ≡ w.memory)
        × (length out ≤ len)
  unfolding recv
  recv-data_of p len w known some_room v has =
      let l = contents socket_queue_size (received sn w) in
      let fuel = (received sn w).count in
      let size : length l ≤ fuel = omega (
        arith,
        length-window socket_queue_size (received sn w).slots (received sn w).head
            (received sn w).count,
      ) in
      let r = recv_loop fuel sn len [] w in
      let none_yet : ℕ = length {A = ℕ} [] in
      let all : len - none_yet ≡ len = omega arith in
      let h : IsTaken sn p len [] w l r =
        subst (λ n. IsTaken sn p n [] w l r) all
          (recv_loop-IsTaken sn p len fuel [] w l v has refl size) in
      let go : (leb sock_num sn || not true || len == 0) ≡ false = ground arith in
      (
        r.1,
        rw go (ap (λ out. (out, receive_pending_data hal sn r.1)) h.output),
        h.left,
        h.memory_eq,
        length-data_of p w.memory len l,
      )
