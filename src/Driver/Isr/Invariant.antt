-- ===== src/Driver/Isr/Invariant.antt =====
-- Every interrupt keeps the invariant of the driver's state.
use wiznet_driver.Base.{ℕ, zero, suc, ◌+◌, not, ◌&&◌, ◌==◌, if◌then◌else◌, List, [], ◌∷◌}
use wiznet_driver.Memory.{socket_regs}
use wiznet_driver.Queue.{is_empty}
use wiznet_driver.Driver.Reg
use wiznet_driver.Driver.{Command, World, Hal, Target, nowhere, inline_bytes, local_variable}
use wiznet_driver.Driver.{at_pointer, check_tx_fsr, is_idle, cs_high, reg, emit, sock_num}
use wiznet_driver.Driver.Encode.{generate_get_reg_cmd}
use wiznet_driver.Driver.Engine.{dma_tx_complete, push_back_isr}
use wiznet_driver.Driver.Engine.Keeps.{Keeps, Holds, if-Holds, dma_tx_complete-Keeps}
use wiznet_driver.Driver.Engine.Keeps.{push_back_isr-Keeps, push_front_isr-Keeps}
use wiznet_driver.Driver.Engine.Keeps.{handle_spi_failure-Keeps}
use wiznet_driver.Driver.Complete.{dma_rx_complete}
use wiznet_driver.Driver.Sound.{IsSound, IsSound-IsStable, at_memory-IsSound}
use wiznet_driver.Driver.Sound.Completed.{dma_rx_complete-IsSound}
use wiznet_driver.Driver.Isr.{read_sir_cmd, wiznet_interrupt_callback, wiznet_timer_callback}
use wiznet_driver.Driver.Isr.{wiznet_spi_tx_rx_complete_callback, wiznet_spi_tx_complete_callback}
use wiznet_driver.Driver.Isr.{wiznet_spi_error_callback, wiznet_spi_abort_callback}
use wiznet_driver.Driver.Isr.{poll_established, dma_receive, Interrupt, int_pin, timer}
use wiznet_driver.Driver.Isr.{spi_tx_complete, spi_error, spi_abort, spi_tx_rx_complete}
use wiznet_driver.Driver.Isr.{handle, handle_all}

dma_receive-IsSound : (bytes : List ℕ) → Keeps IsSound (dma_receive bytes)
unfolding dma_receive
dma_receive-IsSound bytes w h = delivered w.target
  where
    delivered : (t : Target) → Holds IsSound (dma_receive bytes (record w { target = t }))
    delivered nowhere = h
    delivered local_variable = h
    delivered inline_bytes = h
    delivered (at_pointer p) = at_memory-IsSound _ w h

module _ (hal : Hal) where
  completes : Keeps IsSound (dma_tx_complete hal)
  completes = dma_tx_complete-Keeps IsSound IsSound-IsStable hal

  back : (c : Command) → Keeps IsSound (push_back_isr hal c)
  back = push_back_isr-Keeps IsSound IsSound-IsStable hal

  poll_established-IsSound :
      (left sn : ℕ) (cmd : Command) (w : World)
      → Holds IsSound w
      → Holds IsSound (poll_established hal left sn cmd w).1
  unfolding poll_established
  poll_established-IsSound zero sn cmd w h = h
  poll_established-IsSound (suc left) sn cmd w h =
      let c : Command =
        record (generate_get_reg_cmd cmd sn (Reg.sn_tx_fsr sn)
          (record { region = socket_regs sn; offset = Reg.tx_fsr }) 6) {
            cmd_type = check_tx_fsr;
          } in
      let established = reg w sn Reg.sr == Reg.sock_established in
      let w' = push_back_isr hal c w in
      poll_established-IsSound left (sn + 1) (if established then c else cmd)
        (if established then w' else w) (if-Holds IsSound established w' w (back c w h) h)

  wiznet_timer_callback-IsSound : Keeps IsSound (wiznet_timer_callback hal)
  unfolding wiznet_timer_callback
  wiznet_timer_callback-IsSound w h =
      let stuck = is_idle w.running_cmd.cmd_type && not (is_empty w.command_queue) in
      let w1 = if stuck then dma_tx_complete hal w else w in
      let r = poll_established hal sock_num 0 hal.raw_command w1 in
      back (read_sir_cmd hal r.0) r.1 (
        poll_established-IsSound sock_num 0 hal.raw_command w1
          (if-Holds IsSound stuck (dma_tx_complete hal w) w (completes w h) h))

  pub handle-IsSound : (i : Interrupt) → Keeps IsSound (handle hal i)
  unfolding handle wiznet_interrupt_callback wiznet_spi_tx_complete_callback
      wiznet_spi_error_callback wiznet_spi_abort_callback wiznet_spi_tx_rx_complete_callback
  handle-IsSound int_pin w h =
      push_front_isr-Keeps IsSound IsSound-IsStable hal (read_sir_cmd hal hal.raw_command) w h
  handle-IsSound timer w h = wiznet_timer_callback-IsSound w h
  handle-IsSound spi_tx_complete w h = completes (emit w cs_high) h
  handle-IsSound spi_error w h = handle_spi_failure-Keeps IsSound IsSound-IsStable hal w h
  handle-IsSound spi_abort w h = handle_spi_failure-Keeps IsSound IsSound-IsStable hal w h
  handle-IsSound (spi_tx_rx_complete bytes) w h =
      let w1 = emit (dma_receive bytes w) cs_high in
      completes (dma_rx_complete hal w1)
        (dma_rx_complete-IsSound hal w1 (dma_receive-IsSound bytes w h))

-- Whatever interrupts come, in whatever order, and whatever bytes their transfers received: from a
-- state in which the command queue and every socket's queues are valid, every send buffer has less
-- than 2^15 bytes and the segments to send lie apart in it, the driver comes to such a state.
pub handle_all-IsSound :
    (hal : Hal) (is : List Interrupt) (w : World)
    → IsSound w.memory w.sockets w.command_queue
    → let w' = handle_all hal is w in IsSound w'.memory w'.sockets w'.command_queue
unfolding handle_all
handle_all-IsSound hal [] w h = h
handle_all-IsSound hal (i ∷ is) w h =
    handle_all-IsSound hal is (handle hal i w) (handle-IsSound hal i w h)
