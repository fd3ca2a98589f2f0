-- ===== src/Driver.antt =====
-- Inc/w5500.hpp and Src/w5500.cpp: the types and the state of the driver core. The functions stand
-- in the modules below, and the socket layer in `Sockets`.
pub mod Reg
pub mod Encode
pub mod Buffers
pub mod Engine
pub mod Pending
pub mod Complete
pub mod Sound
pub mod Isr
pub mod Blocking
pub mod Hardware
pub mod Init
use wiznet_driver.Base.{ℕ, zero, suc, ◌+◌, ◌%◌, ◌^◌, Bool, true, false, ◌==◌, if◌then◌else◌}
use wiznet_driver.Base.{Option, none, some, List, [], ◌∷◌}
use wiznet_driver.Base.Bits.{be16}
use wiznet_driver.Memory.{socket_regs, Pointer, Memory}
use wiznet_driver.Net.{CallbackType}
use wiznet_driver.Queue.{Queue}

-- `command_type_t`
pub data CommandType : Type 0 where
  write_reg write_buf read_reg read_buf read_sir read_soc check_rcv check_tx_fsr idle : CommandType

abbrev pub is_idle : CommandType → Bool
is_idle idle = true
is_idle _ = false

-- `command_t`. `inline_buf` is the array of COMMAND_BUFFER_SIZE bytes, by index.
pub record Command : Type 0 where
  pub cmd_type : CommandType
  pub sn : ℕ
  pub inline_buf : ℕ → ℕ
  pub ptr : Option Pointer
  pub len : ℕ

abbrev pub command_queue_size : ℕ
command_queue_size = 1000

abbrev pub socket_queue_size : ℕ
socket_queue_size = 15

abbrev pub command_buffer_size : ℕ
command_buffer_size = 10

-- `_WIZCHIP_SOCK_NUM_`
abbrev pub sock_num : ℕ
sock_num = 8

-- `IDLE_COMMAND`
abbrev pub idle_command : Command
idle_command = record { cmd_type = idle; sn = 0; inline_buf = λ i. 0; ptr = none; len = 0 }

-- `buffer_segment_t`; the address is four bytes.
pub record Segment : Type 0 where
  pub start_index : ℕ
  pub end_index : ℕ
  pub addr : List ℕ
  pub port : ℕ

-- The only callback that the code gives to a queue.
pub data QueueCallback : Type 0 where
  kick_start_commands : QueueCallback

-- `socket_t` but for its registers, which lie in the region `socket_regs sn`.
pub record Socket : Type 0 where
  pub tx_buf : Option Pointer
  pub tx_buf_len : ℕ
  pub tx_buf_queue : Queue Segment QueueCallback
  pub rx_buf : Option Pointer
  pub rx_buf_len : ℕ
  pub rx_buf_queue : Queue Segment QueueCallback
  pub callback : Option ℕ
  pub is_sending : Bool
  pub is_receiving : Bool

-- Where the running DMA transfer puts the bytes that it receives: nowhere (a transmission), the
-- inline buffer of the running command, a pointer, or the buffer of a command that was a local
-- variable of the function which started the transfer.
pub data Target : Type 0 where
  nowhere inline_bytes local_variable : Target
  at_pointer : Pointer → Target

-- What the driver does to the outside: the chip-select pin, the DMA transfers with the bytes that
-- they send, and the calls of a socket's callback (with the length that it points to, if any).
pub data Event : Type 0 where
  cs_high cs_low : Event
  transmit transmit_receive : List ℕ → Event
  called : ℕ → CallbackType → Option ℕ → Event

-- The globals of w5500.cpp, the memory, and what happened so far, last first.
pub record World : Type 0 where
  pub memory : Memory
  pub command_queue : Queue Command QueueCallback
  pub running_cmd : Command
  pub sockets : ℕ → Socket
  pub enqueue_fails_in_isr : ℕ
  pub command_retries : ℕ
  pub spi_err_count : ℕ
  pub target : Target
  pub events : List Event

-- What the code takes from the HAL and the compiler: whether a DMA start returns HAL_OK, given all
-- that happened up to it, and the contents of a `command_t` and of a `buffer_segment_t` that are
-- not initialised.
pub record Hal : Type 0 where
  pub accepts : List Event → Bool
  pub raw_command : Command
  pub raw_segment : Segment

module _ (w : World) where
  -- A byte of the copy of a socket's registers, and GET_U16 of two of them.
  abbrev pub reg : ℕ → ℕ → ℕ
  reg sn offset = w.memory (socket_regs sn) offset

  abbrev pub reg_u16 : ℕ → ℕ → ℕ
  reg_u16 sn offset = be16 (reg sn offset) (reg sn (offset + 1))

  -- The world after a change of one socket.
  abbrev pub put_socket : ℕ → Socket → World
  put_socket sn s = record w { sockets = λ i. if i == sn then s else w.sockets i }

  abbrev pub emit : Event → World
  emit e = record w { events = e ∷ w.events }

  -- `enqueueFailsInISR++`, where the push failed.
  abbrev pub count_fail : Bool → World
  count_fail success =
      if success
      then w
      else record w { enqueue_fails_in_isr = (w.enqueue_fails_in_isr + 1) % 2 ^ 32 }
