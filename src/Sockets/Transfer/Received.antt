-- ===== src/Sockets/Transfer/Received.antt =====
-- What recv hands to its caller: the data of the queued segments, whole, as far as they fit.
use mathlib.Core.Path.{subst}
use wiznet_driver.Base.{ℕ, zero, suc, ◌+◌, ◌-◌, ◌≡◌, ◌≤◌, refl, sym, ap, ◌∙◌, arith}
use wiznet_driver.Base.{
  Bool, true, false, ◌&&◌, ltb, leb, ◌==◌, if◌then◌else◌, Bool-cases, inl, inr,
}
use wiznet_driver.Base.{none, some, List, [], ◌∷◌, ◌++◌, length, drop, append-nil}
use wiznet_driver.Base.{append_assoc, length-append}
use wiznet_driver.Memory.{Memory, Pointer, load, read_bytes, advance}
use wiznet_driver.Queue
use wiznet_driver.Queue.{Queue}
use wiznet_driver.Queue.Valid.{IsValid, pop_front-IsValid}
use wiznet_driver.Queue.Window.{contents}
use wiznet_driver.Queue.Front.{peek_front-head?, pop_front-tail}
use wiznet_driver.Queue.Spec.{tail}
use wiznet_driver.Driver.{World, Segment, QueueCallback, put_socket, socket_queue_size}
use wiznet_driver.Sockets.Transfer.{data_len, segment_data, recv_loop, load_at}

-- The segments that fit into `room` bytes, in order: it ends at the first one that does not fit.
abbrev pub fitting : ℕ → List Segment → List Segment
fitting room [] = []
fitting room (g ∷ gs) =
    let rest = fitting (room - data_len g) gs in
    if ltb 0 room && leb (data_len g) room then g ∷ rest else []

-- The data of the segments, behind their three header bytes.
abbrev pub data_of : Pointer → Memory → List Segment → List ℕ
data_of p m [] = []
data_of p m (g ∷ gs) = load m (advance p (g.start_index + 3)) (data_len g) ++ data_of p m gs

length-read_bytes : (f : ℕ → ℕ) (i n : ℕ) → length (read_bytes f i n) ≡ n
unfolding read_bytes
length-read_bytes f i zero = refl
length-read_bytes f i (suc n) = ap suc (length-read_bytes f (i + 1) n)

pub length-load : (m : Memory) (p : Pointer) (n : ℕ) → length (load m p n) ≡ n
unfolding load
length-load m p n = length-read_bytes (m p.region) p.offset n

module _ (sn : ℕ) where
  abbrev pub received : World → Queue Segment QueueCallback
  received w = (w.sockets sn).rx_buf_queue

  -- The world without the front segment.
  abbrev popped : World → World
  popped w =
      put_socket w sn (record (w.sockets sn) {
        rx_buf_queue = (Queue.pop_front socket_queue_size (received w)).1;
      })

  popped-socket :
      (w : World)
      → (popped w).sockets sn ≡ record (w.sockets sn) {
        rx_buf_queue = (Queue.pop_front socket_queue_size (received w)).1;
      }
  popped-socket w = let same : (sn == sn) ≡ true = ground arith in rw same refl

  pop_eq :
      (w : World) (l : List Segment)
      → IsValid socket_queue_size (received w)
      → contents socket_queue_size (received w) ≡ l
      → contents socket_queue_size (received (popped w)) ≡ tail l
  pop_eq w l v e =
      ap (λ s. contents socket_queue_size s.rx_buf_queue) (popped-socket w)
      ∙ pop_front-tail socket_queue_size (received w) l v e

  module _ (len : ℕ) (out : List ℕ) (w : World) where
    ends_empty :
        (fuel : ℕ)
        → Queue.peek_front (received w) ≡ none
        → recv_loop (suc fuel) sn len out w ≡ (out, w)
    unfolding recv_loop
    ends_empty fuel e = rw (recv_loop, e) refl

    ends_full :
        (fuel : ℕ) (g : Segment)
        → Queue.peek_front (received w) ≡ some g
        → (ltb (length out) len && leb (data_len g) (len - length out)) ≡ false
        → recv_loop (suc fuel) sn len out w ≡ (out, w)
    unfolding recv_loop
    ends_full fuel g e full = rw (recv_loop, e, full) refl

    goes_on :
        (fuel : ℕ) (g : Segment)
        → Queue.peek_front (received w) ≡ some g
        → (ltb (length out) len && leb (data_len g) (len - length out)) ≡ true
        → recv_loop (suc fuel) sn len out w
          ≡ recv_loop fuel sn len (out ++ segment_data sn g w) (popped w)
    unfolding recv_loop
    goes_on fuel g e room = rw (recv_loop, e, room) refl

  -- What a run of the loop has done.
  pub record IsTaken (p : Pointer) (room : ℕ) (out : List ℕ) (w : World) (l : List Segment)
      (r : List ℕ × World) : Type 0 where
    pub output : r.0 ≡ out ++ data_of p w.memory (fitting room l)
    pub left : contents socket_queue_size (received r.1) ≡ drop (length (fitting room l)) l
    pub memory_eq : r.1.memory ≡ w.memory

  stopped-IsTaken :
      (p : Pointer) (room : ℕ) (out : List ℕ) (w : World) (l : List Segment)
      → contents socket_queue_size (received w) ≡ l
      → fitting room l ≡ []
      → IsTaken p room out w l (out, w)
  stopped-IsTaken p room out w l e stop = record {
    output = rw stop (sym (append-nil out));
    left = rw stop e;
    memory_eq = refl;
  }

  -- A segment that fits, and the run behind it.
  further-IsTaken :
      (p : Pointer) (room : ℕ) (out d : List ℕ) (w : World) (g : Segment) (gs : List Segment)
      (r : List ℕ × World)
      → (ltb 0 room && leb (data_len g) room) ≡ true
      → d ≡ load w.memory (advance p (g.start_index + 3)) (data_len g)
      → IsTaken p (room - data_len g) (out ++ d) (popped w) gs r
      → IsTaken p room out w (g ∷ gs) r
  further-IsTaken p room out d w g gs r fits same h = record {
    output =
        h.output
        ∙ append_assoc out d (data_of p w.memory (fitting (room - data_len g) gs))
        ∙ ap (λ b. out ++ (b ++ data_of p w.memory (fitting (room - data_len g) gs))) same
        ∙ rw fits refl;
    left = rw fits h.left;
    memory_eq = h.memory_eq;
  }

  -- The loop's test of the room, seen from what is left.
  same_test : (n len : ℕ) (b : Bool) → (ltb n len && b) ≡ (ltb 0 (len - n) && b)
  same_test n len b = ground arith

  loop_over : (len : ℕ) (out : List ℕ) (w : World) → recv_loop zero sn len out w ≡ (out, w)
  unfolding recv_loop
  loop_over len out w = refl

  length-segment_data :
      (p : Pointer) (w : World) (g : Segment)
      → (w.sockets sn).rx_buf ≡ some p
      → (segment_data sn g w ≡ load w.memory (advance p (g.start_index + 3)) (data_len g))
        × (length (segment_data sn g w) ≡ data_len g)
  length-segment_data p w g has =
      let same = ap (λ b. load_at b (g.start_index + 3) (data_len g) w.memory) has in
      (same, ap length same ∙ length-load w.memory (advance p (g.start_index + 3)) (data_len g))

  -- With fuel for each segment, recv's loop takes the data of those that fit, in order.
  pub recv_loop-IsTaken :
      (p : Pointer) (len fuel : ℕ) (out : List ℕ) (w : World) (l : List Segment)
      → IsValid socket_queue_size (received w)
      → (w.sockets sn).rx_buf ≡ some p
      → contents socket_queue_size (received w) ≡ l
      → length l ≤ fuel
      → IsTaken p (len - length out) out w l (recv_loop fuel sn len out w)
  recv_loop-IsTaken p len zero out w [] v has e enough =
      rw (loop_over len out w) (stopped-IsTaken p (len - length out) out w [] e refl)
  recv_loop-IsTaken p len zero out w (g ∷ gs) v has e enough = absurd (omega arith)
  recv_loop-IsTaken p len (suc fuel) out w [] v has e enough =
      rw (ends_empty len out w fuel (peek_front-head? socket_queue_size (received w) [] v e))
        (stopped-IsTaken p (len - length out) out w [] e refl)
  recv_loop-IsTaken p len (suc fuel) out w (g ∷ gs) v has e enough =
      let d = segment_data sn g w in
      let (same, size) = length-segment_data p w g has in
      let test = same_test (length out) len (leb (data_len g) (len - length out)) in
      let peek = peek_front-head? socket_queue_size (received w) (g ∷ gs) v e in
      let room_eq : len - length (out ++ d) ≡ len - length out - data_len g =
        omega (arith, length-append out d) in
      elim (Bool-cases (ltb (length out) len && leb (data_len g) (len - length out))) [
        | inl room ↦
            (let v_rest : IsValid socket_queue_size (received (popped w)) =
                subst (λ s. IsValid socket_queue_size s.rx_buf_queue) (sym (popped-socket w))
                  (pop_front-IsValid socket_queue_size (received w) v) in
              let has_rest = ap (λ s. s.rx_buf) (popped-socket w) ∙ has in
              let ih =
                recv_loop-IsTaken p len fuel (out ++ d) (popped w) gs v_rest has_rest
                  (pop_eq w (g ∷ gs) v e) (omega arith) in
              rw (goes_on len out w fuel g peek room) (
                further-IsTaken p (len - length out) out d w g gs _ (sym test ∙ room) same
                  (rw (← room_eq) ih)))
        | inr full ↦
            rw (ends_full len out w fuel g peek full)
              (stopped-IsTaken p (len - length out) out w (g ∷ gs) e (rw (sym test ∙ full) refl))
      ]
