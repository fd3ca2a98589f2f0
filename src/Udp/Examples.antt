-- ===== src/Udp/Examples.antt =====
-- A run of the UDP client over the socket layer, with one socket open for UDP.
use wiznet_driver.Base.{ℕ, ◌≡◌, refl, ◌==◌, if◌then◌else◌, true, some, [], ◌∷◌}
use wiznet_driver.Driver.{World}
use wiznet_driver.Driver.Pending.{send_pending_data}
use wiznet_driver.Driver.Sound.{IsSound}
use wiznet_driver.Sockets.Api.{driver_net}
use wiznet_driver.Sockets.Open.{get_socket_status}
use wiznet_driver.Sockets.Transfer.{sendto}
use wiznet_driver.Sockets.Transfer.Sent.{IsQueuedAt, addressed}
use wiznet_driver.Sockets.Examples.{hal, os, tx_pointer, start, start-IsSound, start-HasGap}
use wiznet_driver.Udp.{Client, udp_ok, is_udp, udp_client_send}
use wiznet_driver.Udp.Queued.{udp_client_send-IsQueuedAt}

abbrev client : Client
client = record {
  config = record {
    socket_num = 3;
    source_port = 5000;
    dest_ip = 10 ∷ 0 ∷ 0 ∷ 7 ∷ [];
    dest_port = 6000;
    buffers = record {
      tx_buf = some tx_pointer;
      tx_buf_len = 100;
      rx_buf = some tx_pointer;
      rx_buf_len = 100;
    };
  };
  initialized = true;
}

-- SR is SOCK_UDP, TXBUF_SIZE is 2 and TX_FSR is 2048
abbrev udp_registers : ℕ → ℕ
udp_registers i = if i == 6 then 0x22 else if i == 34 then 2 else if i == 35 then 0x08 else 0

abbrev open_for_udp : World
open_for_udp = record start { memory = λ r i. udp_registers i }

open-IsSound : IsSound open_for_udp.memory open_for_udp.sockets open_for_udp.command_queue
open-IsSound = record {
  commands-IsValid = start-IsSound.commands-IsValid;
  each = start-IsSound.each;
}

open_run : is_udp (get_socket_status 3 open_for_udp) ≡ true
unfolding get_socket_status
open_run = refl

send_run : (udp_client_send (driver_net hal os) (some (7 ∷ 8 ∷ [])) client open_for_udp).0 ≡ udp_ok
unfolding udp_client_send get_socket_status sendto
send_run = refl

udp_client_send-IsQueuedAt_example :
    (i : ℕ) × (w1 : World) × ((udp_client_send
        (driver_net hal os)
        (some (7 ∷ 8 ∷ []))
        client
        open_for_udp).1
      ≡ send_pending_data hal 3 w1)
    × IsQueuedAt hal 3
        (7 ∷ 8 ∷ [])
        open_for_udp
        tx_pointer
        (addressed (10 ∷ 0 ∷ 0 ∷ 7 ∷ []) 6000)
        i
        w1
udp_client_send-IsQueuedAt_example =
    udp_client_send-IsQueuedAt hal os client (7 ∷ 8 ∷ []) open_for_udp tx_pointer open-IsSound
      open_run start-HasGap refl send_run
