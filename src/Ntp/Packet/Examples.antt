-- ===== src/Ntp/Packet/Examples.antt =====
-- Runs of the packet routines on concrete values.
use wiznet_driver.Base.{◌≡◌, refl, arith}
use wiznet_driver.Ntp.Packet.{Time, ok, swap_endian_32, build_request}
use wiznet_driver.Ntp.Packet.{parse_response, ntp_from_unix_timestamp}
use wiznet_driver.Ntp.Packet.Times.{Wire, wire_bytes}
use wiznet_driver.Ntp.Packet.Times.{parse_response-wire_bytes, build_request-wire_bytes}

abbrev noon : Time
noon = record { seconds = 3900000000; fractional = 5 }

abbrev reply : Wire
reply = record {
  flags = 36;
  stratum = 2;
  poll = 4;
  precision = 250;
  root_delay = 0;
  root_dispersion = 0;
  reference_id = 0;
  reference = noon;
  origin = noon;
  received = noon;
  sent = noon;
}

swap_endian_32-run : swap_endian_32 0x01020304 ≡ 0x04030201
unfolding swap_endian_32
swap_endian_32-run = refl

parse_response-wire_bytes_example :
    parse_response (wire_bytes reply) 48
    ≡ ok record {
      transmit_time = noon;
      receive_time = noon;
      origin_time = noon;
      stratum = 2;
      leap_indicator = 0;
      version = 4;
      mode = 4;
    }
parse_response-wire_bytes_example =
    parse_response-wire_bytes reply (omega arith) (omega arith) (omega arith)

build_request-wire_bytes_example :
    build_request 4 5000
    ≡ wire_bytes record {
      flags = 35;
      stratum = 0;
      poll = 4;
      precision = 250;
      root_delay = 0;
      root_dispersion = 0;
      reference_id = 0;
      reference = record { seconds = 0; fractional = 0 };
      origin = record { seconds = 0; fractional = 0 };
      received = record { seconds = 0; fractional = 0 };
      sent = ntp_from_unix_timestamp 5;
    }
build_request-wire_bytes_example = build_request-wire_bytes 4 5000 (omega arith)
