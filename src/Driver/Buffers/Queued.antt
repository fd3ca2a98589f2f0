-- ===== src/Driver/Buffers/Queued.antt =====
-- The queue of a socket's segments with the buffer that they lie in, under the operations that the
-- driver does on it: a segment is placed by getTXBufferIndex or getRXBufferIndex and pushed to the
-- back, segments are popped from the front, and the queue is cleared.
use wiznet_driver.Base.{ℕ, ◌+◌, ◌^◌, ◌≡◌, ◌≢◌, ◌<◌, ◌≤◌, ◌⊎◌, inl, inr, refl, sym, ap, ◌∙◌, arith}
use wiznet_driver.Base.{
  Bool, none, if◌then◌else◌, List, [], ◌∷◌, ◌++◌, All, ◌==◌, length, true, false,
}
use native.Mathlib.Decide.{dec_lt}
use wiznet_driver.Base.Int.{pos, negsuc}
use wiznet_driver.Queue.{Queue, before, is_full, is_empty}
use wiznet_driver.Queue
use wiznet_driver.Queue.Valid.{IsValid, push_back-IsValid, pop_front-IsValid, clear-IsValid}
use wiznet_driver.Queue.Window.{contents, length-window}
use wiznet_driver.Queue.Refine.{exec_refines}
use wiznet_driver.Queue.Spec.{Reply, op_pop_front, op_push_back}
use wiznet_driver.Driver.{Segment, QueueCallback, socket_queue_size}
use wiznet_driver.Driver.Buffers.{buffer_index}
use wiznet_driver.Driver.Buffers.Layout.{IsChain, last_end, IsApart, chain-bounds}
use wiznet_driver.Driver.Buffers.Layout.{place-unwrapped, place-wrapped, place-minus_one}
use wiznet_driver.Driver.Buffers.Placed.{IsSpread, nothing_queued, round_from, IsRoom}
use wiznet_driver.Driver.Buffers.Placed.{tail-IsSpread, snoc-IsSpread}
use wiznet_driver.Driver.Buffers.Safe.{
  nonempty, IsLayout, buffer_index-IsApart, index_eq, front_eq, back_eq,
}

abbrev pub Segments : Type 0
Segments = Queue Segment QueueCallback

pub record IsPlaced (q : Segments) (buf_len : ℕ) : Type 0 where
  pub queue-IsValid : IsValid socket_queue_size q
  pub small : buf_len < 2 ^ 15
  pub spread : IsSpread buf_len (contents socket_queue_size q)

-- Nothing is queued, or the last queued segment does not end where the first one starts.
abbrev pub HasGap : Segments → Type 0
HasGap q =
    (q.count ≡ 0)
    ⊎ ((q.slots (before socket_queue_size q.tail)).end_index ≢ (q.slots q.head).start_index)

module _ (q : Segments) (buf_len : ℕ) (r : IsPlaced q buf_len) where
  pub pop_front-IsPlaced : IsPlaced (Queue.pop_front socket_queue_size q).1 buf_len
  pop_front-IsPlaced = record {
    queue-IsValid = pop_front-IsValid socket_queue_size q r.queue-IsValid;
    small = r.small;
    spread =
        rw (ap (λ t. t.1) (exec_refines socket_queue_size q r.queue-IsValid op_pop_front))
          (tail-IsSpread buf_len (contents socket_queue_size q) r.spread);
  }

  pub clear-IsPlaced : IsPlaced (Queue.clear q) buf_len
  unfolding Queue.clear
  clear-IsPlaced = record {
    queue-IsValid = clear-IsValid socket_queue_size q r.queue-IsValid;
    small = r.small;
    spread = nothing_queued refl;
  }

  IsLayout-of :
      (f : Segment) (a b : List Segment)
      → contents socket_queue_size q ≡ (f ∷ a) ++ b
      → IsChain 0 (f ∷ a) buf_len
      → IsChain 0 b f.start_index
      → IsLayout q buf_len f a b
  IsLayout-of f a b e front wrapped = record {
    queue-IsValid = r.queue-IsValid;
    queued = e;
    front_part = front;
    wrapped_part = wrapped;
    small = r.small;
  }

  room_before :
      (f : Segment) (a b : List Segment)
      → HasGap q
      → IsLayout q buf_len f a b
      → (b ≡ []) ⊎ (last_end 0 b < f.start_index)
  room_before f a [] gap l = inl refl
  room_before f a (g ∷ b) (inl none_there) l = absurd (nonempty q buf_len f a (g ∷ b) l none_there)
  room_before f a (g ∷ b) (inr gap) l = elim (dec_lt (last_end 0 (g ∷ b)) f.start_index) [
    | yes less ↦ inr less
    | no full ↦
        (let meet : last_end 0 (g ∷ b) ≡ f.start_index =
            omega (arith, chain-bounds (g ∷ b) 0 f.start_index l.wrapped_part) in
          absurd (
            gap (
              back_eq q buf_len f a (g ∷ b) l
              ∙ meet
              ∙ sym (ap (λ (s : Segment). s.start_index) (front_eq q buf_len f a (g ∷ b) l)))))
  ]

  -- The index that is chosen is room for the segment.
  IsRoom-at :
      (f : Segment) (a b : List Segment) (len i : ℕ)
      → IsLayout q buf_len f a b
      → (b ≡ []) ⊎ (last_end 0 b < f.start_index)
      → buffer_index q buf_len len ≡ pos i
      → IsRoom buf_len f a b i len
  IsRoom-at f a [] len i l room e =
      let bounds = chain-bounds a f.end_index buf_len l.front_part.2 in
      place-unwrapped f.start_index (last_end f.end_index a) buf_len len i (omega arith)
        (omega arith) l.small (sym (index_eq q buf_len f a [] l len) ∙ e)
  IsRoom-at f a (g ∷ b) len i l room e =
      place-wrapped f.start_index (last_end 0 (g ∷ b)) buf_len len i (ground (arith, room))
        (sym (index_eq q buf_len f a (g ∷ b) l len) ∙ e)

  -- An empty buffer takes what fits in it, at its start.
  index-empty :
      (len i : ℕ)
      → contents socket_queue_size q ≡ []
      → buffer_index q buf_len len ≡ pos i
      → (i ≡ 0) × (len ≤ buf_len)
  unfolding buffer_index
  index-empty len i e p =
      let empty : q.count ≡ 0 =
        omega (arith, ap length e, length-window socket_queue_size q.slots q.head q.count) in
      ground arith

  empty-minus_one :
      (len n : ℕ)
      → contents socket_queue_size q ≡ []
      → buffer_index q buf_len len ≡ negsuc n
      → n ≡ 0
  unfolding buffer_index
  empty-minus_one len n e p =
      let empty : q.count ≡ 0 =
        omega (arith, ap length e, length-window socket_queue_size q.slots q.head q.count) in
      ground arith

  -- The one negative answer is -1.
  pub buffer_index-minus_one : (len n : ℕ) → buffer_index q buf_len len ≡ negsuc n → n ≡ 0
  buffer_index-minus_one len n e = answered r.spread
    where
      answered : IsSpread buf_len (contents socket_queue_size q) → n ≡ 0
      answered (nothing_queued none_there) = empty-minus_one len n none_there e
      answered (round_from f a b all front wrapped) =
          place-minus_one f.start_index (last_end (last_end f.end_index a) b) buf_len len n
            (sym (index_eq q buf_len f a b (IsLayout-of f a b all front wrapped) len) ∙ e)

  placed-by :
      (g : Segment) (len : ℕ)
      → HasGap q
      → 0 < len
      → g.end_index ≡ g.start_index + len
      → buffer_index q buf_len len ≡ pos g.start_index
      → IsSpread buf_len (contents socket_queue_size q)
      → IsSpread buf_len (contents socket_queue_size q ++ (g ∷ []))
  placed-by g len gap proper ends e (nothing_queued none_there) =
      let (start, fits) = index-empty len g.start_index none_there e in
      round_from g [] [] (ap (λ l. l ++ (g ∷ [])) none_there) (omega arith) (omega arith)
  placed-by g len gap proper ends e (round_from f a b all front wrapped) =
      let l : IsLayout q buf_len f a b = IsLayout-of f a b all front wrapped in
      snoc-IsSpread buf_len (contents socket_queue_size q) f a b g len all front wrapped ends proper
        (IsRoom-at f a b len g.start_index l (room_before f a b gap l) e)

  -- A segment of `len` bytes at the index that was chosen for it.
  pub push_back-IsPlaced :
      (g : Segment) (len : ℕ)
      → HasGap q
      → 0 < len
      → g.end_index ≡ g.start_index + len
      → buffer_index q buf_len len ≡ pos g.start_index
      → IsPlaced (Queue.push_back socket_queue_size q g).queue buf_len
  push_back-IsPlaced g len gap proper ends e = record {
    queue-IsValid = push_back-IsValid socket_queue_size q g r.queue-IsValid;
    small = r.small;
    spread =
        rw (ap (λ t. t.1) (exec_refines socket_queue_size q r.queue-IsValid (op_push_back g)))
          (pushed (length (contents socket_queue_size q) == socket_queue_size));
  }
    where
      l : List Segment
      l = contents socket_queue_size q

      pushed :
          (full : Bool)
          → IsSpread buf_len
              (if◌then◌else◌ {A = Reply Segment × List Segment} full
                ((false, none), l)
                ((true, none), l ++ (g ∷ []))).1
      pushed true = r.spread
      pushed false = placed-by g len gap proper ends e r.spread

  -- It shares no byte with a queued segment, and it ends in the buffer.
  pub chosen-IsApart :
      (len i : ℕ)
      → HasGap q
      → buffer_index q buf_len len ≡ pos i
      → (i + len ≤ buf_len) × All (IsApart i len) (contents socket_queue_size q)
  chosen-IsApart len i gap e = apart r.spread
    where
      apart :
          IsSpread buf_len (contents socket_queue_size q)
          → (i + len ≤ buf_len) × All (IsApart i len) (contents socket_queue_size q)
      apart (nothing_queued none_there) =
          let (start, fits) = index-empty len i none_there e in (omega arith, rw none_there tt)
      apart (round_from f a b all front wrapped) =
          let layout : IsLayout q buf_len f a b = IsLayout-of f a b all front wrapped in
          buffer_index-IsApart q buf_len f a b len i layout (room_before f a b gap layout) e
