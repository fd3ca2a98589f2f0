-- ===== src/Driver/Reg.antt =====
-- Inc/w5500_macros.h and the register structs of Inc/w5500.hpp: addresses, flags, struct offsets.
use wiznet_driver.Base.{ℕ, ◌+◌, ◌*◌, ◌^◌}

-- The common register block, and the blocks of socket `n`.
abbrev pub sreg_block : ℕ → ℕ
sreg_block n = 1 + 4 * n

abbrev pub txbuf_block : ℕ → ℕ
txbuf_block n = 2 + 4 * n

abbrev pub rxbuf_block : ℕ → ℕ
rxbuf_block n = 3 + 4 * n

-- `(offset << 8) + (WIZCHIP_SREG_BLOCK(n) << 3)`, the address of a socket register.
abbrev pub sn_addr : ℕ → ℕ → ℕ
sn_addr offset n = offset * 2 ^ 8 + sreg_block n * 2 ^ 3

-- The address of a common register, whose block is 0.
abbrev pub common_addr : ℕ → ℕ
common_addr offset = offset * 2 ^ 8

abbrev pub sn_mr : ℕ → ℕ
sn_mr = sn_addr 0x0000

abbrev pub sn_cr : ℕ → ℕ
sn_cr = sn_addr 0x0001

abbrev pub sn_ir : ℕ → ℕ
sn_ir = sn_addr 0x0002

abbrev pub sn_sr : ℕ → ℕ
sn_sr = sn_addr 0x0003

abbrev pub sn_port : ℕ → ℕ
sn_port = sn_addr 0x0004

abbrev pub sn_dipr : ℕ → ℕ
sn_dipr = sn_addr 0x000C

abbrev pub sn_dport : ℕ → ℕ
sn_dport = sn_addr 0x0010

abbrev pub sn_rxbuf_size : ℕ → ℕ
sn_rxbuf_size = sn_addr 0x001E

abbrev pub sn_txbuf_size : ℕ → ℕ
sn_txbuf_size = sn_addr 0x001F

abbrev pub sn_tx_fsr : ℕ → ℕ
sn_tx_fsr = sn_addr 0x0020

abbrev pub sn_tx_wr : ℕ → ℕ
sn_tx_wr = sn_addr 0x0024

abbrev pub sn_rx_rsr : ℕ → ℕ
sn_rx_rsr = sn_addr 0x0026

abbrev pub sn_rx_rd : ℕ → ℕ
sn_rx_rd = sn_addr 0x0028

abbrev pub sn_imr : ℕ → ℕ
sn_imr = sn_addr 0x002C

-- Common registers.
abbrev pub w5500_mr : ℕ
w5500_mr = common_addr 0x0000

abbrev pub w5500_gar : ℕ
w5500_gar = common_addr 0x0001

abbrev pub w5500_subr : ℕ
w5500_subr = common_addr 0x0005

abbrev pub w5500_shar : ℕ
w5500_shar = common_addr 0x0009

abbrev pub w5500_sipr : ℕ
w5500_sipr = common_addr 0x000F

abbrev pub w5500_intlevel : ℕ
w5500_intlevel = common_addr 0x0013

abbrev pub w5500_imr : ℕ
w5500_imr = common_addr 0x0016

abbrev pub w5500_sir : ℕ
w5500_sir = common_addr 0x0017

abbrev pub w5500_simr : ℕ
w5500_simr = common_addr 0x0018

abbrev pub w5500_rtr : ℕ
w5500_rtr = common_addr 0x0019

abbrev pub w5500_rcr : ℕ
w5500_rcr = common_addr 0x001B

-- Offsets in `socket_regs_t`, which is packed and begins with three SPI header bytes, and its size.
abbrev pub mr : ℕ
mr = 3

abbrev pub cr : ℕ
cr = 4

abbrev pub ir : ℕ
ir = 5

abbrev pub sr : ℕ
sr = 6

abbrev pub port : ℕ
port = 7

abbrev pub dipr : ℕ
dipr = 15

abbrev pub rxbuf_size : ℕ
rxbuf_size = 33

abbrev pub txbuf_size : ℕ
txbuf_size = 34

abbrev pub tx_fsr : ℕ
tx_fsr = 35

abbrev pub tx_wr : ℕ
tx_wr = 39

abbrev pub rx_rsr : ℕ
rx_rsr = 41

abbrev pub rx_rd : ℕ
rx_rd = 43

abbrev pub imr : ℕ
imr = 47

abbrev pub socket_regs_size : ℕ
socket_regs_size = 51

-- Offsets in `common_regs_t`, which are the chip's.
abbrev pub common_sir : ℕ
common_sir = 0x17

-- Commands, flags and states.
abbrev pub mr_rst : ℕ
mr_rst = 0x80

abbrev pub sn_mr_nd : ℕ
sn_mr_nd = 0x20

abbrev pub sn_mr_udp : ℕ
sn_mr_udp = 0x02

abbrev pub sn_mr_tcp : ℕ
sn_mr_tcp = 0x01

abbrev pub sn_cr_open : ℕ
sn_cr_open = 0x01

abbrev pub sn_cr_connect : ℕ
sn_cr_connect = 0x04

abbrev pub sn_cr_discon : ℕ
sn_cr_discon = 0x08

abbrev pub sn_cr_close : ℕ
sn_cr_close = 0x10

abbrev pub sn_cr_send : ℕ
sn_cr_send = 0x20

abbrev pub sn_cr_recv : ℕ
sn_cr_recv = 0x40

abbrev pub sn_ir_sendok : ℕ
sn_ir_sendok = 0x10

abbrev pub sn_ir_timeout : ℕ
sn_ir_timeout = 0x08

abbrev pub sn_ir_recv : ℕ
sn_ir_recv = 0x04

abbrev pub sn_ir_discon : ℕ
sn_ir_discon = 0x02

abbrev pub sock_closed : ℕ
sock_closed = 0x00

abbrev pub sock_init : ℕ
sock_init = 0x13

abbrev pub sock_listen : ℕ
sock_listen = 0x14

abbrev pub sock_established : ℕ
sock_established = 0x17

abbrev pub sock_close_wait : ℕ
sock_close_wait = 0x1C

abbrev pub sock_udp : ℕ
sock_udp = 0x22
