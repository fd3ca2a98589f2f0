-- ===== src/Driver/Isr/Examples.antt =====
-- Runs of the command engine on concrete worlds.
use wiznet_driver.Base.{List}
use wiznet_driver.Net.{sockerr_queue_full}
use wiznet_driver.Base.{◌++◌, ◌-◌, take}
use wiznet_driver.Driver.Reg
use wiznet_driver.Driver.Init.{Setting, common, set_all}
use wiznet_driver.Driver.Init.Queued.{commands_of, set_all-full}
use wiznet_driver.Base.{◌≡◌, refl, arith, true, false, ◌==◌, if◌then◌else◌}
use wiznet_driver.Base.{none, some, [], ◌∷◌}
use wiznet_driver.Queue
use wiznet_driver.Queue.{Queue}
use wiznet_driver.Driver.{
  Command, World, Hal, Segment, QueueCallback, kick_start_commands, write_reg,
}
use wiznet_driver.Driver.{idle_command, local_variable}
use wiznet_driver.Driver.Engine.{dma_tx_complete_within, dma_tx_complete, dma_tx_complete_with}
use wiznet_driver.Driver.Engine.Reentry.{dma_tx_complete_within-eq}
use wiznet_driver.Driver.Engine.Refused.{dma_tx_complete-refused, handle_spi_failure-put_back}
use wiznet_driver.Driver.Engine.{handle_spi_failure}
use wiznet_driver.Driver.{is_idle, command_queue_size}
use wiznet_driver.Queue.Window.{contents}
use wiznet_driver.Driver.Isr.Exchange.{Exchange, ends, landed_all, log, AreExchanges}
use wiznet_driver.Driver.Isr.Drained.{IsDone}
use wiznet_driver.Driver.Isr.Pushed.{IsResting, push_all, push_all-IsDone}
use wiznet_driver.Driver.Engine.Started.{sets, orders, reads}
use wiznet_driver.Driver.{read_reg}
use wiznet_driver.Memory.{socket_regs, store, write_bytes}
use wiznet_driver.Driver.Isr.{handle_all}
use wiznet_driver.Driver.Isr.Busy.{IsRetrying, transfers_end, reads_again, handle_all-busy}

abbrev no_segment : Segment
no_segment = record { start_index = 0; end_index = 0; addr = []; port = 0 }

abbrev no_segments : Queue Segment QueueCallback
no_segments = record {
  slots = λ i. no_segment;
  head = 0;
  tail = 0;
  count = 0;
  on_first_push = none;
}

abbrev hal : Hal
hal = record { accepts = λ es. true; raw_command = idle_command; raw_segment = no_segment }

-- `SEND` to the command register of socket 0
abbrev send_cmd : Command
send_cmd = record {
  cmd_type = write_reg;
  sn = 0;
  inline_buf = λ i. if i == 0 then 0x00 else if i == 1 then 0x01 else if i == 2 then 0x0C else 0x20;
  ptr = none;
  len = 4;
}

-- the command waits and runs, and the copy of the register still shows the command before
abbrev busy_world : World
busy_world = record {
  memory = λ r i. 0x40;
  command_queue = record {
    slots = λ i. send_cmd;
    head = 999;
    tail = 0;
    count = 1;
    on_first_push = some kick_start_commands;
  };
  running_cmd = send_cmd;
  sockets = λ sn. record {
    tx_buf = none;
    tx_buf_len = 0;
    tx_buf_queue = no_segments;
    rx_buf = none;
    rx_buf_len = 0;
    rx_buf_queue = no_segments;
    callback = none;
    is_sending = false;
    is_receiving = false;
  };
  enqueue_fails_in_isr = 0;
  command_retries = 0;
  spi_err_count = 0;
  target = local_variable;
  events = [];
}

busy_world-IsRetrying : IsRetrying send_cmd busy_world
unfolding Queue.pop_front
busy_world-IsRetrying = record {
  is_write = refl;
  is_cr = refl;
  busy = refl;
  running = refl;
  reading = refl;
  waiting = refl;
  queue-IsValid = omega arith;
}

dma_tx_complete_within-eq_example :
    (dma_tx_complete_within hal 3 busy_world ≡ dma_tx_complete hal busy_world)
    × (dma_tx_complete hal busy_world ≡ dma_tx_complete_with hal (λ v. v) busy_world)
dma_tx_complete_within-eq_example = dma_tx_complete_within-eq hal 2 busy_world

handle_all-busy_example :
    let w' = handle_all hal (transfers_end ((0 ∷ []) ∷ (0 ∷ []) ∷ [])) busy_world in
    IsRetrying send_cmd w'
    × (w'.memory ≡ busy_world.memory)
    × (w'.events ≡ reads_again hal send_cmd ((0 ∷ []) ∷ (0 ∷ []) ∷ []) busy_world.events)
handle_all-busy_example =
    handle_all-busy hal ((0 ∷ []) ∷ (0 ∷ []) ∷ []) send_cmd busy_world (λ es. refl)
      busy_world-IsRetrying

-- a retry count and a retry time in their registers
abbrev settings : List Setting
settings = common 0x1B Reg.w5500_rcr (5 ∷ []) ∷ common 0x19 Reg.w5500_rtr (0x27 ∷ 0x10 ∷ []) ∷ []

-- all places but one are taken
abbrev crowded_world : World
crowded_world = record busy_world {
  command_queue = record {
    slots = λ i. send_cmd;
    head = 999;
    tail = 998;
    count = 999;
    on_first_push = some kick_start_commands;
  };
}

set_all-full_example :
    let r = set_all hal settings crowded_world in
    (r.0 ≡ sockerr_queue_full)
    × (contents command_queue_size r.1.command_queue
        ≡ contents command_queue_size crowded_world.command_queue
          ++ commands_of hal (take (command_queue_size - 999) settings))
set_all-full_example =
    set_all-full hal settings crowded_world refl (omega arith) (omega arith) (omega arith)

-- a HAL that starts no transfer
abbrev refusing : Hal
refusing = record { accepts = λ es. false; raw_command = idle_command; raw_segment = no_segment }

first_command : (Queue.pop_front command_queue_size busy_world.command_queue).0 ≡ some send_cmd
unfolding Queue.pop_front
first_command = refl

dma_tx_complete-refused_example :
    let w' = dma_tx_complete refusing busy_world in
    (contents command_queue_size w'.command_queue
      ≡ contents command_queue_size busy_world.command_queue)
    × (is_idle w'.running_cmd.cmd_type ≡ true)
dma_tx_complete-refused_example =
    dma_tx_complete-refused refusing (λ es. refl) busy_world send_cmd
      busy_world-IsRetrying.queue-IsValid first_command refl

handle_spi_failure-put_back_example :
    let w' = handle_spi_failure hal busy_world in
    (is_idle w'.running_cmd.cmd_type ≡ true)
    × (contents command_queue_size w'.command_queue ≡ (
        if busy_world.command_queue.count == command_queue_size
        then contents command_queue_size busy_world.command_queue
        else busy_world.running_cmd ∷ contents command_queue_size busy_world.command_queue))
handle_spi_failure-put_back_example =
    handle_spi_failure-put_back hal busy_world busy_world-IsRetrying.queue-IsValid refl

-- a driver at rest, whose copies of the registers are 0
abbrev resting_world : World
resting_world = record busy_world {
  memory = λ r i. 0;
  command_queue = record busy_world.command_queue { head = 0; count = 0 };
  running_cmd = idle_command;
}

resting_world-IsResting : IsResting resting_world
resting_world-IsResting = record {
  idle = refl;
  empty = refl;
  queue-IsValid = omega arith;
  kicks = refl;
}

-- a write of a register, `SEND`, and a read of four bytes of registers
abbrev write_port : Exchange
write_port = record {
  kind = sets;
  cmd = record send_cmd { inline_buf = λ i. if i == 1 then 0x04 else 0x0C; len = 5 };
  received = [];
}

abbrev order_send : Exchange
order_send = record { kind = orders; cmd = send_cmd; received = 0 ∷ 0 ∷ 0 ∷ 0 ∷ [] }

abbrev free_size : Exchange
free_size = record {
  kind = reads;
  cmd = record {
    cmd_type = read_reg;
    sn = 0;
    inline_buf = λ i. if i == 1 then 0x20 else if i == 2 then 0x08 else 0;
    ptr = some (record { region = socket_regs 0; offset = Reg.tx_fsr });
    len = 5;
  };
  received = 0 ∷ 0 ∷ 0 ∷ 0x08 ∷ 0x00 ∷ [];
}

abbrev three : List Exchange
three = order_send ∷ free_size ∷ []

three-AreExchanges : AreExchanges (write_port ∷ three) resting_world.memory
unfolding store write_bytes
three-AreExchanges = ((refl, refl), tt, ((refl, refl), (refl, refl), (refl, refl, tt)))

push_all-IsDone_example :
    IsDone hal
      (landed_all (write_port ∷ three) resting_world.memory)
      resting_world.sockets
      (log hal (write_port ∷ three) resting_world.memory resting_world.events)
      (handle_all hal (ends (write_port ∷ three)) (push_all hal (write_port ∷ three) resting_world))
push_all-IsDone_example =
    push_all-IsDone hal (λ es. refl) write_port three resting_world resting_world-IsResting
      three-AreExchanges (omega arith)
