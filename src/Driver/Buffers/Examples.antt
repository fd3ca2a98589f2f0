-- ===== src/Driver/Buffers/Examples.antt =====
-- Runs of the choice of an index on a buffer of ten bytes.
use wiznet_driver.Base.{ℕ, ◌≡◌, ◌≤◌, refl, arith, inr, none, [], ◌∷◌, ◌==◌, if◌then◌else◌, All}
use wiznet_driver.Base.Int.{pos}
use wiznet_driver.Queue.{Queue}
use wiznet_driver.Queue.Window.{contents}
use wiznet_driver.Driver.{Segment, QueueCallback, socket_queue_size}
use wiznet_driver.Driver.Buffers.{buffer_index, place}
use wiznet_driver.Driver.Buffers.Layout.{IsApart}
use wiznet_driver.Driver.Buffers.Safe.{IsLayout, buffer_index-IsApart, buffer_index-overlaps}

abbrev seg : ℕ → ℕ → Segment
seg i j = record { start_index = i; end_index = j; addr = []; port = 0 }

-- bytes 6 to 8, and, round the end, those before `k`
abbrev wrapped_to : ℕ → Queue Segment QueueCallback
wrapped_to k = record {
  slots = λ i. if i == 3 then seg 6 9 else seg 0 k;
  head = 3;
  tail = 5;
  count = 2;
  on_first_push = none;
}

wrapped_to-IsLayout : IsLayout (wrapped_to 2) 10 (seg 6 9) [] (seg 0 2 ∷ [])
wrapped_to-IsLayout = record {
  queue-IsValid = omega arith;
  queued = refl;
  front_part = omega arith;
  wrapped_part = omega arith;
  small = omega arith;
}

full-IsLayout : IsLayout (wrapped_to 6) 10 (seg 6 9) [] (seg 0 6 ∷ [])
full-IsLayout = record {
  queue-IsValid = omega arith;
  queued = refl;
  front_part = omega arith;
  wrapped_part = omega arith;
  small = omega arith;
}

buffer_index-run : buffer_index (wrapped_to 2) 10 3 ≡ pos 2
unfolding buffer_index place
buffer_index-run = refl

buffer_index-IsApart_example :
    (5 ≤ 10) × All (IsApart 2 3) (contents socket_queue_size (wrapped_to 2))
buffer_index-IsApart_example =
    buffer_index-IsApart (wrapped_to 2) 10 (seg 6 9) [] (seg 0 2 ∷ []) 3 2 wrapped_to-IsLayout
      (inr (omega arith)) buffer_index-run

buffer_index-overlaps_example : buffer_index (wrapped_to 6) 10 4 ≡ pos 6
buffer_index-overlaps_example =
    buffer_index-overlaps (wrapped_to 6) 10 (seg 6 9) [] [] (seg 0 6) 4 full-IsLayout refl
      (omega arith)
