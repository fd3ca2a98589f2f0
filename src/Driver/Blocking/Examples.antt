-- ===== src/Driver/Blocking/Examples.antt =====
-- A poll with a clock that a delay moves on.
use wiznet_driver.Base.{◌+◌, arith, true, false, none, []}
use wiznet_driver.Memory.{Pointer, common_regs}
use wiznet_driver.Queue.{Queue}
use wiznet_driver.Driver.{World, Hal, Segment, QueueCallback, idle_command, nowhere}
use wiznet_driver.Driver.Blocking.{Os, poll_reg_with_it}
use wiznet_driver.Driver.Blocking.Poll.{DelayPasses, IsPolled, poll_reg_with_it-IsPolled}

abbrev no_segment : Segment
no_segment = record { start_index = 0; end_index = 0; addr = []; port = 0 }

abbrev hal : Hal
hal = record { accepts = λ es. true; raw_command = idle_command; raw_segment = no_segment }

-- The clock is the counter of errors of the world, for want of another number in it.
abbrev os : Os
os = record {
  tick = λ w. w.spi_err_count;
  delay = λ n w. record w { spi_err_count = w.spi_err_count + n };
  rand = λ w. (4, w);
}

abbrev reg_pointer : Pointer
reg_pointer = record { region = common_regs; offset = 0 }

abbrev no_segments : Queue Segment QueueCallback
no_segments = record {
  slots = λ i. no_segment;
  head = 0;
  tail = 0;
  count = 0;
  on_first_push = none;
}

-- all bytes of the memory are 7
abbrev start_world : World
start_world = record {
  memory = λ r i. 7;
  command_queue = record {
    slots = λ i. idle_command;
    head = 0;
    tail = 0;
    count = 0;
    on_first_push = none;
  };
  running_cmd = idle_command;
  sockets = λ sn. record {
    tx_buf = none;
    tx_buf_len = 0;
    tx_buf_queue = no_segments;
    rx_buf = none;
    rx_buf_len = 0;
    rx_buf_queue = no_segments;
    callback = none;
    is_sending = false;
    is_receiving = false;
  };
  enqueue_fails_in_isr = 0;
  command_retries = 0;
  spi_err_count = 5;
  target = nowhere;
  events = [];
}

os-DelayPasses : DelayPasses os 5 60000
os-DelayPasses v h = omega arith

poll_reg_with_it-IsPolled_example :
    IsPolled os reg_pointer 9 false 60000 5
      (poll_reg_with_it hal os reg_pointer 9 false start_world)
poll_reg_with_it-IsPolled_example =
    poll_reg_with_it-IsPolled hal os reg_pointer 9 false start_world os-DelayPasses
