-- ===== src/Ntp/Packet.antt =====
-- Src/ntp_client.c: packets and times: _ntp_swap_endian_32, _ntp_build_request, _ntp_parse_response
-- and the conversions between NTP and Unix time. The processor is little-endian, as an STM32 is:
-- a 32-bit field stands in memory with its lowest byte first, and the code swaps it.
pub mod Times
mod Examples
use wiznet_driver.Base.{
  ℕ, ◌+◌, ◌-◌, ◌*◌, ◌/◌, ◌%◌, ◌^◌, Bool, true, false, not, ◌||◌, ltb, leb, ◌==◌,
}
use wiznet_driver.Base.{if◌then◌else◌, Option, none, some, List, [], ◌∷◌, ◌++◌, length, get_or}
use wiznet_driver.Base.Bits.{shr, low_bits}

-- The error codes.
pub data Error : Type 0 where
  invalid_param socket_fail timeout invalid_response server_error network unsynchronized : Error

-- `NTP_OK` with a value, or an error.
pub data Result {ℓ} (A : Type ℓ) : Type ℓ where
  ok : A → Result A
  err : Error → Result A

abbrev pub ntp_epoch_offset : ℕ
ntp_epoch_offset = 2208988800

abbrev pub ntp_packet_size : ℕ
ntp_packet_size = 48

abbrev pub mode_client : ℕ
mode_client = 3

abbrev pub mode_server : ℕ
mode_server = 4

-- `ntp_time_t`
pub record Time : Type 0 where
  pub seconds : ℕ
  pub fractional : ℕ

-- `ntp_response_t`; `is_valid` is true of every response that is returned.
pub record Response : Type 0 where
  pub transmit_time : Time
  pub receive_time : Time
  pub origin_time : Time
  pub stratum : ℕ
  pub leap_indicator : ℕ
  pub version : ℕ
  pub mode : ℕ

-- Each mask selects one byte, which the shift moves; the four do not overlap.
unfoldable pub swap_endian_32 : ℕ → ℕ
swap_endian_32 x =
    low_bits (shr x 24) 8
    + low_bits (shr x 16) 8 * 2 ^ 8
    + low_bits (shr x 8) 8 * 2 ^ 16
    + low_bits x 8 * 2 ^ 24

unfoldable pub swap_endian_ntp_time : Time → Time
unfolding swap_endian_32
swap_endian_ntp_time t = record {
  seconds = swap_endian_32 t.seconds;
  fractional = swap_endian_32 t.fractional;
}

-- A 32-bit field in memory, and `*(uint32_t*)&buffer[i]`.
abbrev pub le_bytes : ℕ → List ℕ
le_bytes x =
    low_bits x 8 ∷ low_bits (shr x 8) 8 ∷ low_bits (shr x 16) 8 ∷ low_bits (shr x 24) 8 ∷ []

abbrev pub load_u32 : List ℕ → ℕ → ℕ
load_u32 buffer i =
    get_or buffer i 0
    + get_or buffer (i + 1) 0 * 2 ^ 8
    + get_or buffer (i + 2) 0 * 2 ^ 16
    + get_or buffer (i + 3) 0 * 2 ^ 24

-- The request in memory, at `tick` milliseconds: the fields of `ntp_packet_t` in their order, the
-- 32-bit ones swapped.
unfoldable pub build_request : ℕ → ℕ → List ℕ
unfolding swap_endian_32
build_request version tick =
    low_bits (version * 2 ^ 3 + mode_client) 8
    ∷ 0
    ∷ 4
    ∷ 0xFA
    ∷ (le_bytes (swap_endian_32 0)
        ++ (le_bytes (swap_endian_32 0)
            ++ (le_bytes (swap_endian_32 0)
                ++ (le_bytes (swap_endian_32 0)
                    ++ (le_bytes (swap_endian_32 0)
                        ++ (le_bytes (swap_endian_32 0)
                            ++ (le_bytes (swap_endian_32 0)
                                ++ (le_bytes (swap_endian_32 0)
                                    ++ (le_bytes (swap_endian_32 0)
                                        ++ (le_bytes (
                                              swap_endian_32
                                                ((tick / 1000 + ntp_epoch_offset) % 2 ^ 32))
                                            ++ le_bytes (swap_endian_32 0)))))))))))

abbrev pub time_at : List ℕ → ℕ → Time
time_at buffer i = record { seconds = load_u32 buffer i; fractional = load_u32 buffer (i + 4) }

-- `len` is what the caller says that the buffer holds.
unfoldable pub parse_response : List ℕ → ℕ → Result Response
unfolding swap_endian_ntp_time
parse_response buffer len =
    let lvm = get_or buffer 0 0 in
    let mode = low_bits lvm 3 in
    let stratum = get_or buffer 1 0 in
    if ltb len ntp_packet_size
    then err invalid_param
    else if not (mode == mode_server)
    then err invalid_response
    else if stratum == 0 || stratum == 16
    then err unsynchronized
    else ok record {
      transmit_time = swap_endian_ntp_time (time_at buffer 40);
      receive_time = swap_endian_ntp_time (time_at buffer 32);
      origin_time = swap_endian_ntp_time (time_at buffer 24);
      stratum = stratum;
      leap_indicator = low_bits (shr lvm 6) 2;
      version = low_bits (shr lvm 3) 3;
      mode = mode;
    }

-- A null pointer is `none`.
unfoldable pub ntp_to_unix_timestamp : Option Time → ℕ
ntp_to_unix_timestamp none = 0
ntp_to_unix_timestamp (some t) =
    if leb ntp_epoch_offset t.seconds then t.seconds - ntp_epoch_offset else 0

unfoldable pub ntp_from_unix_timestamp : ℕ → Time
ntp_from_unix_timestamp unix_timestamp = record {
  seconds = (unix_timestamp + ntp_epoch_offset) % 2 ^ 32;
  fractional = 0;
}
