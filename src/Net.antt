-- ===== src/Net.antt =====
-- Inc/socket.h: what the socket layer shows its clients. `Net` is the interface that the protocol
-- clients are written against; `Sockets.Api` fills it with the socket layer of this driver.
use wiznet_driver.Base.{ℕ, Option, Bool, List, ◌≡◌, refl}
use wiznet_driver.Memory.{Pointer}

-- `SOCK_OK` and the error codes.
pub data SockResult : Type 0 where
  sock_ok sockerr_invalid_param sockerr_timeout sockerr_queue_full sockerr_invalid_state :
      SockResult
  sockerr_tcp_timeout sockerr_txbuf_full sockerr_pack_too_lrg sockerr_rxbuf_too_small : SockResult

abbrev pub is_sock_ok : SockResult → Bool
is_sock_ok sock_ok = Bool.true
is_sock_ok _ = Bool.false

pub is_sock_ok-eq : (r : SockResult) → is_sock_ok r ≡ Bool.true → r ≡ sock_ok
is_sock_ok-eq r = elim r as (λ r. is_sock_ok r ≡ Bool.true → r ≡ sock_ok) [
  | sock_ok ↦ (λ ok. refl)
  | _ ↦ (λ ok. absurd (cc ok))
]

-- `socket_status_t`
pub data SocketStatus : Type 0 where
  closed init listen established close_wait udp other : SocketStatus

-- `socket_callback_type_t`
pub data CallbackType : Type 0 where
  discon_req discon_suc recv timeout : CallbackType

abbrev pub protocol_tcp : ℕ
protocol_tcp = 0x01

abbrev pub protocol_udp : ℕ
protocol_udp = 0x02

-- The buffers that a client hands to `socket`.
pub record Buffers : Type 0 where
  pub tx_buf : Option Pointer
  pub tx_buf_len : ℕ
  pub rx_buf : Option Pointer
  pub rx_buf_len : ℕ

-- What `recvfrom` wrote where it returned a length above 0.
pub record Datagram : Type 0 where
  pub bytes : List ℕ
  pub peer_ip : List ℕ
  pub peer_port : ℕ

-- The socket functions as state transformers. The callback of a socket is a number or null. A
-- receiving function is told how many bytes the caller's array holds, and returns those that it
-- wrote there (none for a result of 0).
-- `tick` is HAL_GetTick and osKernelGetTickCount, `delay` is osDelay, and `rand` the application's
-- ws_rand.
pub record Net : Type 1 where
  pub World : Type 0
  pub socket : ℕ → ℕ → ℕ → Buffers → Option ℕ → World → SockResult × World
  pub close : ℕ → World → SockResult × World
  pub connect : ℕ → List ℕ → ℕ → World → SockResult × World
  pub disconnect : ℕ → World → SockResult × World
  pub send : ℕ → List ℕ → World → SockResult × World
  pub sendto : ℕ → List ℕ → List ℕ → ℕ → World → SockResult × World
  pub receive : ℕ → ℕ → World → List ℕ × World
  pub recvfrom : ℕ → ℕ → World → Option Datagram × World
  pub status : ℕ → World → SocketStatus
  pub tick : World → ℕ
  pub delay : ℕ → World → World
  pub rand : World → ℕ × World
