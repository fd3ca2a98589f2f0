-- ===== src/WebSocket/Client/Sent.antt =====
-- What the client sends as a message.
use wiznet_driver.Base.{ℕ, ◌/◌, ◌%◌, ◌^◌, ◌≡◌, ◌<◌, arith, true, some, List}
use wiznet_driver.Base.{length, take, take-all, ap, ◌+◌, All}
use wiznet_driver.Base.Bits.{IsByte}
use wiznet_driver.Net.{Net}
use wiznet_driver.WebSocket.Frame.{generate_masking_key}
use wiznet_driver.WebSocket.Frame.RoundTrip.{
  length-client_frame, client_frame, read_frame, read_frame-client_frame,
}
use wiznet_driver.WebSocket.Client.{Client, send_frame, send_masked, connected}

-- A frame of less than 2^16 bytes is handed over whole.
pub masked_whole :
    (op : ℕ) (payload : List ℕ) (r : ℕ)
    → length payload + 8 < 2 ^ 16
    → let frame = client_frame op payload (generate_masking_key r) in
      take (length frame % 2 ^ 16) frame ≡ frame
unfolding generate_masking_key
masked_whole op payload r small =
    let frame = client_frame op payload (generate_masking_key r) in
    take-all (length frame % 2 ^ 16) frame (
      omega (
        arith,
        length-client_frame op payload (r / 2 ^ 24 % 2 ^ 8) (r / 2 ^ 16 % 2 ^ 8) (r / 2 ^ 8 % 2 ^ 8)
            (r % 2 ^ 8),
      ))

-- On a connected client, sending a payload of at most 65527 bytes with an opcode of four bits hands
-- the socket a frame that the client's own parser reads back as that opcode and that payload,
-- whatever random number the masking key is made of.
pub send_frame-read_frame :
    (net : Net) (op : ℕ) (payload : List ℕ) (g : Client) (w : net.World)
    → g.initialized ≡ true
    → g.state ≡ connected
    → op < 16
    → length payload + 8 < 2 ^ 16
    → All IsByte payload
    → let (rand_val, w1) = net.rand w in
      let frame = client_frame op payload (generate_masking_key rand_val) in
      ((send_frame net op (some payload) g w).1 ≡ (net.send g.config.socket_num frame w1).1)
      × (read_frame frame ≡ some (op, payload))
unfolding send_frame send_masked generate_masking_key
send_frame-read_frame net op payload g w init state ho hn hp =
    let r : ℕ = (net.rand w).0 in
    (
      rw (init, state)
          (ap (λ f. (net.send g.config.socket_num f (net.rand w).1).1)
            (masked_whole op payload r hn)),
      read_frame-client_frame op payload (r / 2 ^ 24 % 2 ^ 8) (r / 2 ^ 16 % 2 ^ 8)
          (r / 2 ^ 8 % 2 ^ 8) (r % 2 ^ 8) ho (omega arith) hp (omega arith),
    )
