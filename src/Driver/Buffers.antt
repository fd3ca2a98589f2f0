-- ===== src/Driver/Buffers.antt =====
-- Src/w5500.cpp: getTXBufferIndex and getRXBufferIndex, which choose where in a socket's buffer the
-- next data goes.
pub mod Layout
pub mod Placed
pub mod Safe
pub mod Queued
mod Examples
use wiznet_driver.Base.{ℕ, leb, if◌then◌else◌}
use wiznet_driver.Base.Int.{ℤ, pos, minus_one, ◌-ℤ◌, leb_ℤ, to_int16, int16}
use wiznet_driver.Queue.{Queue, is_empty, before}
use wiznet_driver.Driver.{Segment, QueueCallback, Socket, socket_queue_size}

-- The part behind the test for an empty queue: `queue_start` and `queue_end` are 16-bit copies of
-- the front's start and the back's end.
unfoldable pub place : ℤ → ℤ → ℕ → ℕ → ℤ
place queue_start queue_end buf_len len =
    if leb_ℤ queue_start queue_end
    then (let space_at_end = int16 (pos buf_len -ℤ queue_end) in
        let space_at_beginning = queue_start in
        if leb_ℤ (pos len) space_at_end
        then queue_end
        else if leb_ℤ (pos len) space_at_beginning
        then pos 0
        else minus_one)
    else if leb_ℤ (pos len) (queue_start -ℤ queue_end)
    then queue_end
    else minus_one

-- The two functions have one body, over the queue and the length of one of the two buffers.
unfoldable pub buffer_index : Queue Segment QueueCallback → ℕ → ℕ → ℤ
unfolding place
buffer_index q buf_len len =
    if is_empty q
    then if leb len buf_len then pos 0 else minus_one
    else place (to_int16 (q.slots q.head).start_index)
        (to_int16 (q.slots (before socket_queue_size q.tail)).end_index) buf_len len

unfoldable pub get_tx_buffer_index : Socket → ℕ → ℤ
unfolding buffer_index
get_tx_buffer_index s len = buffer_index s.tx_buf_queue s.tx_buf_len len

unfoldable pub get_rx_buffer_index : Socket → ℕ → ℤ
unfolding buffer_index
get_rx_buffer_index s len = buffer_index s.rx_buf_queue s.rx_buf_len len
