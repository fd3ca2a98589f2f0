-- ===== src/Driver/Engine.antt =====
-- The command engine of Src/w5500.cpp: dmaTXCompleteCallback, kickStartCommands, handleSPIFailure,
-- and the pushes to the command queue with the queue's callback.
-- A push to the empty queue calls kickStartCommands, which calls dmaTXCompleteCallback, which may
-- push again: the depth of these calls is bounded by fuel.
pub mod Reentry
pub mod Keeps
pub mod Started
pub mod Refused
use wiznet_driver.Base.{ℕ, zero, suc, ◌+◌, ◌%◌, ◌^◌, Bool, ◌&&◌, ltb, not}
use wiznet_driver.Base.{◌==◌, if◌then◌else◌, none, some, List, []}
use wiznet_driver.Base.Bits.{shr, low_bits}
use wiznet_driver.Memory.{socket_regs, load, read_bytes}
use wiznet_driver.Queue
use wiznet_driver.Queue.{Queue, Push}
use wiznet_driver.Driver.Reg
use wiznet_driver.Driver.{Command, CommandType, World, Hal, QueueCallback}
use wiznet_driver.Driver.{write_reg, write_buf, read_reg, read_buf, read_sir, read_soc, check_rcv}
use wiznet_driver.Driver.{check_tx_fsr, idle, is_idle, idle_command, command_queue_size, sock_num}
use wiznet_driver.Driver.{Event, cs_high, cs_low, transmit, transmit_receive, reg, emit, count_fail}
use wiznet_driver.Driver.{Target, nowhere, inline_bytes, local_variable, at_pointer}
use wiznet_driver.Driver.Encode.{generate_get_reg_cmd}

-- The result of a push, and the world after the callback that it called has run.
abbrev pub pushed : (World → World) → World → Push Command QueueCallback → Bool × World
pushed kick w p =
    let w' = record w { command_queue = p.queue } in
    (p.success, elim p.fired [ none ↦ w' | some c ↦ kick w' ])

-- Is this a write to the command register of a socket?
abbrev pub is_cr_write : Command → Bool
is_cr_write c =
    (c.inline_buf 0 == 0x00)
    && (c.inline_buf 1 == 0x01)
    && (low_bits (shr (c.inline_buf 2) 2) 3 == 3)
    && ltb c.sn sock_num

-- HAL_SPI_Transmit_DMA and HAL_SPI_TransmitReceive_DMA on the inline buffer and on `ptr`.
abbrev pub inline_of : Command → List ℕ
inline_of c = read_bytes c.inline_buf 0 c.len

abbrev pub bytes_at : World → Command → List ℕ
bytes_at w c = elim c.ptr [ none ↦ [] | some p ↦ load w.memory p c.len ]

abbrev pub target_of : Command → Target
target_of c = elim c.ptr [ none ↦ nowhere | some p ↦ at_pointer p ]

module _ (hal : Hal) (kick : World → World) where
  -- A push to the front from an interrupt, whose failure is counted.
  abbrev pub push_front_counted : Command → World → World
  push_front_counted cmd w =
      let (success, w') = pushed kick w (Queue.push_front command_queue_size w.command_queue cmd) in
      count_fail w' success

  unfoldable pub handle_spi_failure_with : World → World
  unfolding Queue.push_front
  handle_spi_failure_with w =
      let w1 = emit w cs_high in
      let w2 = push_front_counted w1.running_cmd w1 in
      record w2 {
        running_cmd = record w2.running_cmd { cmd_type = idle };
        spi_err_count = (w2.spi_err_count + 1) % 2 ^ 32;
      }

  -- The start of a DMA transfer: on HAL_OK the function goes on, otherwise it fails and returns.
  abbrev pub start_dma : Event → Target → (World → World) → World → World
  start_dma e target go w =
      let w1 = emit w e in
      if hal.accepts w1.events
      then go (record w1 { target = target })
      else handle_spi_failure_with w1

  -- The case WRITE_REG for a write to a socket's command register.
  unfoldable pub write_cr : World → World
  unfolding handle_spi_failure_with generate_get_reg_cmd load read_bytes Queue.push_front
  write_cr w =
      let c = w.running_cmd in
      let read_cmd =
        generate_get_reg_cmd hal.raw_command c.sn (Reg.sn_cr c.sn)
          (record { region = socket_regs c.sn; offset = Reg.cr }) 1 in
      if not (reg w c.sn Reg.cr == 0x00)
      then start_dma (transmit_receive (inline_of read_cmd)) local_variable (push_front_counted c)
          (record w { command_retries = (w.command_retries + 1) % 2 ^ 32 })
      else start_dma (transmit (inline_of c)) nowhere (push_front_counted read_cmd) w

  -- The switch over the type of the command that was popped.
  abbrev pub dispatch : CommandType → World → World
  dispatch write_reg w =
      if is_cr_write w.running_cmd
      then write_cr w
      else start_dma (transmit (inline_of w.running_cmd)) nowhere (λ v. v) w
  dispatch write_buf w = start_dma (transmit (bytes_at w w.running_cmd)) nowhere (λ v. v) w
  dispatch read_reg w =
      start_dma (transmit_receive (inline_of w.running_cmd)) inline_bytes (λ v. v) w
  dispatch read_buf w =
      start_dma (transmit_receive (bytes_at w w.running_cmd)) (target_of w.running_cmd) (λ v. v) w
  dispatch read_sir w =
      start_dma (transmit_receive (inline_of w.running_cmd)) inline_bytes (λ v. v) w
  dispatch read_soc w =
      start_dma (transmit_receive (bytes_at w w.running_cmd)) (target_of w.running_cmd) (λ v. v) w
  dispatch check_rcv w =
      start_dma (transmit_receive (inline_of w.running_cmd)) inline_bytes (λ v. v) w
  dispatch check_tx_fsr w =
      start_dma (transmit_receive (inline_of w.running_cmd)) inline_bytes (λ v. v) w
  dispatch idle w = emit w cs_high

  -- dmaTXCompleteCallback, where the queue's callback is `kick`.
  unfoldable pub dma_tx_complete_with : World → World
  unfolding write_cr handle_spi_failure_with load read_bytes Queue.pop_front
  dma_tx_complete_with w =
      let (popped, q) = Queue.pop_front command_queue_size w.command_queue in
      elim popped [
        | none ↦ record w { command_queue = q; running_cmd = idle_command }
        | some c ↦
            dispatch c.cmd_type (emit (record w { command_queue = q; running_cmd = c }) cs_low)
      ]

-- kickStartCommands, where dmaTXCompleteCallback is `complete`.
abbrev pub kick_start_with : (World → World) → World → World
kick_start_with complete w = if is_idle w.running_cmd.cmd_type then complete w else w

module _ (hal : Hal) where
  -- dmaTXCompleteCallback with calls of itself, through the queue's callback, of depth at most
  -- `depth`; below that the callback does nothing.
  unfoldable pub dma_tx_complete_within : ℕ → World → World
  unfolding dma_tx_complete_with
  dma_tx_complete_within zero w = w
  dma_tx_complete_within (suc depth) w =
      dma_tx_complete_with hal (kick_start_with (dma_tx_complete_within depth)) w

  -- The callback of a push returns at once while a command runs, so that depth 1 is enough.
  unfoldable pub dma_tx_complete : World → World
  unfolding dma_tx_complete_within
  dma_tx_complete w = dma_tx_complete_within 1 w

  unfoldable pub kick_start : World → World
  unfolding dma_tx_complete
  kick_start w = kick_start_with dma_tx_complete w

  unfoldable pub handle_spi_failure : World → World
  unfolding handle_spi_failure_with kick_start
  handle_spi_failure w = handle_spi_failure_with hal kick_start w

  unfoldable pub push_command_back : Command → World → Bool × World
  unfolding kick_start Queue.push_back
  push_command_back cmd w =
      pushed kick_start w (Queue.push_back command_queue_size w.command_queue cmd)

  unfoldable pub push_command_front : Command → World → Bool × World
  unfolding kick_start Queue.push_front
  push_command_front cmd w =
      pushed kick_start w (Queue.push_front command_queue_size w.command_queue cmd)

  -- A push whose failure is counted in `enqueueFailsInISR`.
  unfoldable pub push_back_isr : Command → World → World
  unfolding push_command_back
  push_back_isr cmd w = let (success, w') = push_command_back cmd w in count_fail w' success

  unfoldable pub push_front_isr : Command → World → World
  unfolding push_command_front
  push_front_isr cmd w = let (success, w') = push_command_front cmd w in count_fail w' success
