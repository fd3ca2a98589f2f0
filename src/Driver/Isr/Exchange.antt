-- ===== src/Driver/Isr/Exchange.antt =====
-- Commands with the bytes that the chip sends back, and what they do to the bus and the memory.
use wiznet_driver.Base.{ℕ, zero, suc, ◌+◌, ◌-◌, ◌≡◌, sym, ap, ap₂, ◌∙◌, arith}
use wiznet_driver.Base.{true, ◌==◌, Option, none, some, List, [], ◌∷◌, drop, length}
use wiznet_driver.Memory.{Memory, Pointer, store, read_bytes, write_bytes, socket_regs}
use wiznet_driver.Memory.{read_bytes-write_bytes}
use wiznet_driver.Driver.Reg
use wiznet_driver.Driver.{Command, Hal, Event}
use wiznet_driver.Driver.{cs_high}
use wiznet_driver.Driver.{cs_low}
use wiznet_driver.Driver.Engine.Started.{
  Kind, sets, orders, writes, reads, IsKind, transfer, read_back,
}
use wiznet_driver.Driver.Isr.{Interrupt, spi_tx_complete, spi_tx_rx_complete}

-- A queued command, and the bytes that come back: for a read while it runs, and for a write to a
-- socket's command register while the read of the register runs that follows it.
pub record Exchange : Type 0 where
  pub kind : Kind
  pub cmd : Command
  pub received : List ℕ

abbrev pub commands : List Exchange → List Command
commands [] = []
commands (x ∷ xs) = x.cmd ∷ commands xs

-- The interrupts that end the transfers of an exchange.
abbrev pub ends_of : Kind → List ℕ → List Interrupt → List Interrupt
ends_of sets bytes rest = spi_tx_complete ∷ rest
ends_of orders bytes rest = spi_tx_complete ∷ spi_tx_rx_complete bytes ∷ rest
ends_of writes bytes rest = spi_tx_complete ∷ rest
ends_of reads bytes rest = spi_tx_rx_complete bytes ∷ rest

abbrev pub ends : List Exchange → List Interrupt
ends [] = []
ends (x ∷ xs) = ends_of x.kind x.received (ends xs)

-- What a read leaves at its pointer: the bytes behind the three that came with the header.
abbrev pub landed_at : Option Pointer → List ℕ → Memory → Memory
landed_at none bytes m = m
landed_at (some p) bytes m = store m p (drop 3 bytes)

-- The memory after an exchange.
abbrev pub landed : Kind → Command → List ℕ → Memory → Memory
landed reads c bytes m = landed_at c.ptr bytes m
landed orders c bytes m =
    store m (record { region = socket_regs c.sn; offset = Reg.cr }) (drop 3 bytes)
landed _ c bytes m = m

abbrev pub landed_all : List Exchange → Memory → Memory
landed_all [] m = m
landed_all (x ∷ xs) m = landed_all xs (landed x.kind x.cmd x.received m)

module _ (hal : Hal) where
  -- What an exchange does to the bus, the last first.
  abbrev pub log_of : Kind → Command → Memory → List Event → List Event
  log_of orders c m es =
      cs_high
      ∷ transfer reads m (read_back hal c)
      ∷ cs_low
      ∷ cs_high
      ∷ transfer orders m c
      ∷ cs_low
      ∷ es
  log_of k c m es = cs_high ∷ transfer k m c ∷ cs_low ∷ es

  abbrev pub log : List Exchange → Memory → List Event → List Event
  log [] m es = es
  log (x ∷ xs) m es = log xs (landed x.kind x.cmd x.received m) (log_of x.kind x.cmd m es)

-- The received bytes are as many as the transfer has; a write to a command register meets a
-- register that the driver knows to be free.
abbrev pub Fits : Kind → Command → List ℕ → Memory → Type 0
Fits reads c bytes m = length bytes ≡ c.len
Fits orders c bytes m = (length bytes ≡ 4) × ((m (socket_regs c.sn) Reg.cr == 0x00) ≡ true)
Fits _ c bytes m = Unit {0}

-- The exchanges of a queue, from a memory on.
abbrev pub AreExchanges : List Exchange → Memory → Type 0
AreExchanges [] m = Unit
AreExchanges (x ∷ xs) m =
    IsKind x.kind x.cmd
    × Fits x.kind x.cmd x.received m
    × AreExchanges xs (landed x.kind x.cmd x.received m)

drop-read_bytes :
    (k n : ℕ) (f : ℕ → ℕ) (i : ℕ) → read_bytes f (i + k) (n - k) ≡ drop k (read_bytes f i n)
unfolding read_bytes
drop-read_bytes zero n f i = ap₂ (read_bytes f) (omega arith) (omega arith)
drop-read_bytes (suc k) zero f i =
    ap (λ n. read_bytes f (i + suc k) n) {x = 0 - suc k} {y = 0} (omega arith)
drop-read_bytes (suc k) (suc n) f i =
    ap₂ (read_bytes f) (omega arith) (omega arith) ∙ drop-read_bytes k n f (i + 1)

-- What is copied from the inline buffer after a read.
pub copied-eq :
    (buf : ℕ → ℕ) (bytes : List ℕ) (n : ℕ)
    → length bytes ≡ n
    → read_bytes (write_bytes buf 0 bytes) 3 (n - 3) ≡ drop 3 bytes
copied-eq buf bytes n e =
    ap (λ k. read_bytes (write_bytes buf 0 bytes) 3 (k - 3)) (sym e)
    ∙ drop-read_bytes 3 (length bytes) (write_bytes buf 0 bytes) 0
    ∙ ap (drop 3) (read_bytes-write_bytes buf 0 bytes)
