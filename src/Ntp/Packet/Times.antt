-- ===== src/Ntp/Packet/Times.antt =====
-- Times and packets: what is read of what was written.
use wiznet_driver.Base.{ℕ, ◌+◌, ◌-◌, ◌*◌, ◌/◌, ◌%◌, ◌^◌, ◌≡◌, ◌<◌, arith, some, List, [], ◌∷◌}
use wiznet_driver.Base.{◌++◌, ltb, if◌then◌else◌, not, ◌==◌, ◌||◌}
use wiznet_driver.Ntp.Packet.{Time, ok, err, swap_endian_32, le_bytes}
use wiznet_driver.Ntp.Packet.{swap_endian_ntp_time}
use wiznet_driver.Ntp.Packet.{build_request, parse_response, ntp_to_unix_timestamp}
use wiznet_driver.Ntp.Packet.{ntp_from_unix_timestamp, ntp_epoch_offset, invalid_response}
use wiznet_driver.Ntp.Packet.{unsynchronized}

-- Swapping the bytes of a 32-bit word twice gives the word back.
swap_endian_32-swap_endian_32 : (x : ℕ) → x < 2 ^ 32 → swap_endian_32 (swap_endian_32 x) ≡ x
unfolding swap_endian_32
swap_endian_32-swap_endian_32 x h = omega arith

-- The conversion to NTP time and back gives every Unix time before the 32-bit NTP seconds wrap, in
-- February 2036, and 0 for every later one.
unix-ntp :
    (t : ℕ)
    → t < 2 ^ 32
    → ntp_to_unix_timestamp (some (ntp_from_unix_timestamp t))
      ≡ (if ltb t (2 ^ 32 - ntp_epoch_offset) then t else 0)
unfolding ntp_to_unix_timestamp ntp_from_unix_timestamp
unix-ntp t h = ground arith

-- A 32-bit number on the wire: the highest byte first.
abbrev pub be_bytes : ℕ → List ℕ
be_bytes x = x / 2 ^ 24 ∷ x / 2 ^ 16 % 256 ∷ x / 2 ^ 8 % 256 ∷ x % 256 ∷ []

-- A packet on the wire, in the words of RFC 5905: flags, stratum, poll and precision, the root delay
-- and dispersion, the reference and its time, and the three times of the exchange.
pub record Wire : Type 0 where
  pub flags : ℕ
  pub stratum : ℕ
  pub poll : ℕ
  pub precision : ℕ
  pub root_delay : ℕ
  pub root_dispersion : ℕ
  pub reference_id : ℕ
  pub reference : Time
  pub origin : Time
  pub received : Time
  pub sent : Time

abbrev pub time_bytes : Time → List ℕ → List ℕ
time_bytes t rest = be_bytes t.seconds ++ (be_bytes t.fractional ++ rest)

abbrev pub wire_bytes : Wire → List ℕ
wire_bytes p =
    p.flags
    ∷ p.stratum
    ∷ p.poll
    ∷ p.precision
    ∷ (be_bytes p.root_delay
        ++ (be_bytes p.root_dispersion
            ++ (be_bytes p.reference_id
                ++ time_bytes p.reference
                    (time_bytes p.origin (time_bytes p.received (time_bytes p.sent []))))))

abbrev pub IsTime : Time → Type 0
IsTime t = (t.seconds < 2 ^ 32) × (t.fractional < 2 ^ 32)

swap-be :
    (x : ℕ)
    → x < 2 ^ 32
    → swap_endian_32
        (x / 2 ^ 24 + x / 2 ^ 16 % 256 * 2 ^ 8 + x / 2 ^ 8 % 256 * 2 ^ 16 + x % 256 * 2 ^ 24)
      ≡ x
unfolding swap_endian_32
swap-be x h = omega arith

-- What the client makes of a packet of the size of a reply whose times fit 32 bits: it refuses a
-- mode other than that of a server, and the strata 0 and 16, and otherwise returns the packet's
-- three times and the fields of its first two bytes.
pub parse_response-wire_bytes :
    (p : Wire)
    → IsTime p.origin
    → IsTime p.received
    → IsTime p.sent
    → parse_response (wire_bytes p) 48 ≡ (
        if not (p.flags % 8 == 4)
        then err invalid_response
        else if p.stratum == 0 || p.stratum == 16
        then err unsynchronized
        else ok record {
          transmit_time = p.sent;
          receive_time = p.received;
          origin_time = p.origin;
          stratum = p.stratum;
          leap_indicator = p.flags / 64 % 4;
          version = p.flags / 8 % 8;
          mode = p.flags % 8;
        })
unfolding parse_response swap_endian_ntp_time
parse_response-wire_bytes p o r s = ground (
  arith,
  swap-be p.origin.seconds,
  swap-be p.origin.fractional,
  swap-be p.received.seconds,
  swap-be p.received.fractional,
  swap-be p.sent.seconds,
  swap-be p.sent.fractional,
)

le-swap : (x : ℕ) → x < 2 ^ 32 → le_bytes (swap_endian_32 x) ≡ be_bytes x
unfolding swap_endian_32
le-swap x h = ground arith

-- The request is a client's packet on the wire whose only time is that of its sending: the seconds
-- since start, counted from the Unix epoch, in 32-bit NTP time.
pub build_request-wire_bytes :
    (version tick : ℕ)
    → version < 8
    → build_request version tick
      ≡ wire_bytes record {
        flags = version * 8 + 3;
        stratum = 0;
        poll = 4;
        precision = 250;
        root_delay = 0;
        root_dispersion = 0;
        reference_id = 0;
        reference = record { seconds = 0; fractional = 0 };
        origin = record { seconds = 0; fractional = 0 };
        received = record { seconds = 0; fractional = 0 };
        sent = ntp_from_unix_timestamp (tick / 1000);
      }
unfolding build_request ntp_from_unix_timestamp
build_request-wire_bytes version tick h =
    ground (arith, le-swap 0, le-swap ((tick / 1000 + ntp_epoch_offset) % 2 ^ 32))
