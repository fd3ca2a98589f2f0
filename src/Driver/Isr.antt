-- ===== src/Driver/Isr.antt =====
-- Src/w5500.cpp: the interrupt callbacks, and the step relation of the driver under interrupts.
pub mod Busy
pub mod Exchange
pub mod Ended
pub mod Drained
pub mod Pushed
pub mod Invariant
mod Examples
use wiznet_driver.Base.{ℕ, zero, suc, ◌+◌, not, ◌&&◌, ◌==◌, if◌then◌else◌}
use wiznet_driver.Base.{List, [], ◌∷◌}
use wiznet_driver.Memory.{common_regs, socket_regs, store, write_bytes}
use wiznet_driver.Queue.{is_empty}
use wiznet_driver.Driver.Reg
use wiznet_driver.Driver.{Command, World, Hal, Target, nowhere, inline_bytes}
use wiznet_driver.Driver.{local_variable, at_pointer, read_sir, check_tx_fsr, is_idle, cs_high, reg}
use wiznet_driver.Driver.{emit, sock_num}
use wiznet_driver.Driver.Encode.{generate_get_reg_cmd}
use wiznet_driver.Driver.Engine.{dma_tx_complete, handle_spi_failure, push_front_isr, push_back_isr}
use wiznet_driver.Driver.Complete.{dma_rx_complete}

module _ (hal : Hal) where
  -- `generateGetRegCmd(&cmd, 0xFF, W5500_SIR, &common_regs.SIR, 1)` with the type READ_SIR.
  unfoldable pub read_sir_cmd : Command → Command
  unfolding generate_get_reg_cmd
  read_sir_cmd cmd =
      record (generate_get_reg_cmd cmd 0xFF Reg.w5500_sir
        (record { region = common_regs; offset = Reg.common_sir }) 1) { cmd_type = read_sir }

  unfoldable pub wiznet_interrupt_callback : World → World
  unfolding read_sir_cmd push_front_isr
  wiznet_interrupt_callback w = push_front_isr hal (read_sir_cmd hal.raw_command) w

  unfoldable pub wiznet_spi_tx_rx_complete_callback : World → World
  unfolding dma_rx_complete dma_tx_complete
  wiznet_spi_tx_rx_complete_callback w = dma_tx_complete hal (dma_rx_complete hal (emit w cs_high))

  unfoldable pub wiznet_spi_tx_complete_callback : World → World
  unfolding dma_tx_complete
  wiznet_spi_tx_complete_callback w = dma_tx_complete hal (emit w cs_high)

  unfoldable pub wiznet_spi_error_callback : World → World
  unfolding handle_spi_failure
  wiznet_spi_error_callback w = handle_spi_failure hal w

  unfoldable pub wiznet_spi_abort_callback : World → World
  unfolding handle_spi_failure
  wiznet_spi_abort_callback w = handle_spi_failure hal w

  -- The loop of the timer over the sockets: `left` of them are left, from `sn` on.
  unfoldable pub poll_established : ℕ → ℕ → Command → World → Command × World
  unfolding generate_get_reg_cmd push_back_isr
  poll_established zero sn cmd w = (cmd, w)
  poll_established (suc left) sn cmd w =
      let c =
        record (generate_get_reg_cmd cmd sn (Reg.sn_tx_fsr sn)
          (record { region = socket_regs sn; offset = Reg.tx_fsr }) 6) {
            cmd_type = check_tx_fsr;
          } in
      let established = reg w sn Reg.sr == Reg.sock_established in
      poll_established left (sn + 1) (if established then c else cmd)
        (if established then push_back_isr hal c w else w)

  unfoldable pub wiznet_timer_callback : World → World
  unfolding dma_tx_complete poll_established read_sir_cmd push_back_isr
  wiznet_timer_callback w =
      let w1 =
        if is_idle w.running_cmd.cmd_type && not (is_empty w.command_queue)
        then dma_tx_complete hal w
        else w in
      let (cmd, w2) = poll_established sock_num 0 hal.raw_command w1 in
      push_back_isr hal (read_sir_cmd cmd) w2

-- The DMA transfer puts the received bytes where they belong, before its interrupt.
unfoldable pub dma_receive : List ℕ → World → World
unfolding store write_bytes
dma_receive bytes w = deliver w.target
  where
    deliver : Target → World
    deliver nowhere = w
    deliver local_variable = w
    deliver inline_bytes = record w {
      running_cmd = record w.running_cmd {
        inline_buf = write_bytes w.running_cmd.inline_buf 0 bytes;
      };
    }
    deliver (at_pointer p) = record w { memory = store w.memory p bytes }

-- The interrupts that the driver may meet, in any order. `bytes` are what a transfer received.
pub data Interrupt : Type 0 where
  int_pin timer spi_tx_complete spi_error spi_abort : Interrupt
  spi_tx_rx_complete : List ℕ → Interrupt

unfoldable pub handle : Hal → Interrupt → World → World
unfolding wiznet_interrupt_callback wiznet_timer_callback wiznet_spi_tx_complete_callback
    wiznet_spi_error_callback wiznet_spi_abort_callback wiznet_spi_tx_rx_complete_callback
    dma_receive
handle hal int_pin w = wiznet_interrupt_callback hal w
handle hal timer w = wiznet_timer_callback hal w
handle hal spi_tx_complete w = wiznet_spi_tx_complete_callback hal w
handle hal spi_error w = wiznet_spi_error_callback hal w
handle hal spi_abort w = wiznet_spi_abort_callback hal w
handle hal (spi_tx_rx_complete bytes) w =
    wiznet_spi_tx_rx_complete_callback hal (dma_receive bytes w)

unfoldable pub handle_all : Hal → List Interrupt → World → World
unfolding handle
handle_all hal [] w = w
handle_all hal (i ∷ is) w = handle_all hal is (handle hal i w)
