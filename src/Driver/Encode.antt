-- ===== src/Driver/Encode.antt =====
-- The command constructors of Src/w5500.cpp: generateSetRegCmd, generateGetRegCmd,
-- generateSetBufCmd and generateGetBufCmd. Each fills a `command_t` that may hold anything.
use wiznet_driver.Base.{ℕ, ◌+◌, bit_or, some, List, [], ◌∷◌}
use wiznet_driver.Base.Bits.{shr, low_bits}
use wiznet_driver.Memory.{Pointer, Memory, store, write_bytes}
use wiznet_driver.Driver.{Command, write_reg, write_buf, read_reg, read_buf}

-- `_W5500_SPI_READ_` and `_W5500_SPI_WRITE_` with `_W5500_SPI_VDM_OP_`, which is 0.
abbrev pub spi_read : ℕ
spi_read = 0x00

abbrev pub spi_write : ℕ
spi_write = 0x04

-- The three header bytes of a transfer.
abbrev pub header : ℕ → ℕ → List ℕ
header addr mode =
    let a = bit_or addr mode in low_bits (shr a 16) 8 ∷ low_bits (shr a 8) 8 ∷ low_bits a 8 ∷ []

-- `bytes` are the `len` bytes at `data`.
unfoldable pub generate_set_reg_cmd : Command → ℕ → ℕ → List ℕ → ℕ → Command
unfolding write_bytes
generate_set_reg_cmd cmd sn addr bytes len = record cmd {
  cmd_type = write_reg;
  sn = sn;
  inline_buf = write_bytes (write_bytes cmd.inline_buf 0 (header addr spi_write)) 3 bytes;
  len = 3 + len;
}

unfoldable pub generate_get_reg_cmd : Command → ℕ → ℕ → Pointer → ℕ → Command
unfolding write_bytes
generate_get_reg_cmd cmd sn addr buffer len = record cmd {
  cmd_type = read_reg;
  sn = sn;
  inline_buf = write_bytes cmd.inline_buf 0 (header addr spi_read);
  ptr = some buffer;
  len = 3 + len;
}

-- These two write the header to the buffer itself.
unfoldable pub generate_set_buf_cmd : Memory → Command → ℕ → ℕ → Pointer → ℕ → Command × Memory
unfolding store
generate_set_buf_cmd m cmd sn addr buffer len = (
  record cmd { cmd_type = write_buf; sn = sn; ptr = some buffer; len = len },
  store m buffer (header addr spi_write),
)

unfoldable pub generate_get_buf_cmd : Memory → Command → ℕ → ℕ → Pointer → ℕ → Command × Memory
unfolding store
generate_get_buf_cmd m cmd sn addr buffer len = (
  record cmd { cmd_type = read_buf; sn = sn; ptr = some buffer; len = len },
  store m buffer (header addr spi_read),
)
