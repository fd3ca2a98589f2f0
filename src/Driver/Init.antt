-- ===== src/Driver/Init.antt =====
-- Src/w5500.cpp: initWizchip.
pub mod Queued
use wiznet_driver.Base.{
  ℕ, zero, suc, ◌+◌, Bool, true, false, not, List, [], ◌∷◌, ◌++◌, length, take, get_or, some,
}
use wiznet_driver.Base.{if◌then◌else◌}
use wiznet_driver.Memory.{Pointer, common_regs, socket_regs, store, write_bytes}
use wiznet_driver.Net.{SockResult, sock_ok, sockerr_invalid_param, sockerr_queue_full}
use wiznet_driver.Queue
use wiznet_driver.Driver.Reg
use wiznet_driver.Driver.{World, Hal, kick_start_commands, sock_num}
use wiznet_driver.Driver.Hardware.{Hardware, is_configured}
use wiznet_driver.Driver.Blocking.{Os, enqueue_set_reg, poll_reg_no_it}

-- One register that is set: where the copy of it lies, the socket, its address, its bytes.
pub record Setting : Type 0 where
  pub copy : Pointer
  pub sn : ℕ
  pub addr : ℕ
  pub bytes : List ℕ

abbrev pub common : ℕ → ℕ → List ℕ → Setting
common offset addr bytes = record {
  copy = record { region = common_regs; offset = offset };
  sn = 0xFF;
  addr = addr;
  bytes = bytes;
}

-- MAC_ADDRESS
abbrev pub mac_addr : List ℕ
mac_addr = 0x00 ∷ 0x08 ∷ 0xDC ∷ 0xAB ∷ 0xCD ∷ 0xEF ∷ []

-- The common registers, in the code's order, with INT_LEVEL 0, RETRY_TIME 1000 and RETRY_COUNT 5.
unfoldable pub network_settings : List ℕ → List ℕ → List ℕ → List Setting
network_settings ip_address subnet_mask gateway_ip =
    common 0x01 Reg.w5500_gar (take 4 gateway_ip)
    ∷ common 0x05 Reg.w5500_subr (take 4 subnet_mask)
    ∷ common 0x09 Reg.w5500_shar mac_addr
    ∷ common 0x0F Reg.w5500_sipr (take 4 ip_address)
    ∷ common 0x13 Reg.w5500_intlevel (0x00 ∷ 0x00 ∷ [])
    ∷ common 0x18 Reg.w5500_simr (0xFF ∷ [])
    ∷ common 0x16 Reg.w5500_imr (0x00 ∷ [])
    ∷ common 0x19 Reg.w5500_rtr (0x27 ∷ 0x10 ∷ [])
    ∷ common 0x1B Reg.w5500_rcr (5 ∷ [])
    ∷ []

-- The sizes of the chip's buffers: `left` sockets are left, from `i` on.
unfoldable pub size_settings : ℕ → ℕ → List ℕ → List ℕ → List Setting
size_settings zero i rx_buf_sizes tx_buf_sizes = []
size_settings (suc left) i rx_buf_sizes tx_buf_sizes =
    record {
      copy = record { region = socket_regs i; offset = Reg.rxbuf_size };
      sn = i;
      addr = Reg.sn_rxbuf_size i;
      bytes = get_or rx_buf_sizes i 0 ∷ [];
    }
    ∷ record {
      copy = record { region = socket_regs i; offset = Reg.txbuf_size };
      sn = i;
      addr = Reg.sn_txbuf_size i;
      bytes = get_or tx_buf_sizes i 0 ∷ [];
    }
    ∷ size_settings left (i + 1) rx_buf_sizes tx_buf_sizes

module _ (hal : Hal) where
  abbrev pub store_setting : Setting → World → World
  store_setting s w = record w { memory = store w.memory s.copy s.bytes }

  -- Each register is stored in its copy and then queued; the first that is not queued ends it.
  unfoldable pub set_all : List Setting → World → SockResult × World
  unfolding store write_bytes enqueue_set_reg
  set_all [] w = (sock_ok, w)
  set_all (s ∷ rest) w =
      let (success, w') =
        enqueue_set_reg hal s.sn s.addr s.bytes (length s.bytes) (store_setting s w) in
      let rest' = set_all rest w' in if success then rest' else (sockerr_queue_full, w')

  abbrev pub then_set_all : SockResult × World → List Setting → SockResult × World
  then_set_all (sock_ok, w) settings = set_all settings w
  then_set_all (ret, w) settings = (ret, w)

  unfoldable pub init_wizchip :
      Os → Hardware → List ℕ → List ℕ → List ℕ → List ℕ → List ℕ → World → SockResult × World
  unfolding set_all network_settings size_settings poll_reg_no_it Queue.init
      Queue.set_first_push_callback
  init_wizchip os hardware ip_address subnet_mask gateway_ip rx_buf_sizes tx_buf_sizes w =
      let q = Queue.set_first_push_callback (Queue.init w.command_queue) kick_start_commands in
      let reset = common 0x00 Reg.w5500_mr (Reg.mr_rst ∷ []) in
      let (ret, w1) = set_all (reset ∷ []) (record w { command_queue = q }) in
      if not (is_configured hardware)
      then (sockerr_invalid_param, w)
      else then_set_all (then_poll os (ret, w1)) (
          network_settings ip_address subnet_mask gateway_ip
          ++ size_settings sock_num 0 rx_buf_sizes tx_buf_sizes)
    where
      -- Poll for the reset to complete.
      then_poll : Os → SockResult × World → SockResult × World
      then_poll os (sock_ok, v) =
          poll_reg_no_it hal os 0xFF Reg.w5500_mr (record { region = common_regs; offset = 0x00 })
            0x00 false 2000 v
      then_poll os (ret, v) = (ret, v)
