-- ===== src/Dns/Name/Examples.antt =====
-- Runs of the name routines on concrete packets.
use wiznet_driver.Base.{ℕ, ◌≡◌, refl, arith, true, List, [], ◌∷◌, ◌++◌}
use wiznet_driver.Base.{some}
use wiznet_driver.Dns.Result.{ok}
use wiznet_driver.Dns.Name.{valid_from, is_valid_hostname, encode_from, encode_name, decode_name}
use wiznet_driver.Dns.Name.{copy_label, decode_loop}
use wiznet_driver.Dns.Name.Reference.{is_hostname, is_valid_hostname-is_hostname}
use wiznet_driver.Dns.Name.Decoded.{decode_name-encode_name}

-- "a.bc", and its wire form
abbrev host : List ℕ
host = b'a' ∷ b'.' ∷ b'b' ∷ b'c' ∷ []

abbrev host_bytes : List ℕ
host_bytes = 1 ∷ b'a' ∷ 2 ∷ b'b' ∷ b'c' ∷ 0 ∷ []

-- a packet: one byte, the name, a pointer to it, a pointer to itself
abbrev packet : List ℕ
packet = 7 ∷ (host_bytes ++ (0xC0 ∷ 1 ∷ 0xC0 ∷ 9 ∷ []))

host-valid : is_valid_hostname host ≡ true
unfolding is_valid_hostname valid_from
host-valid = refl

encode_name-host : encode_name (some host) ≡ ok host_bytes
unfolding encode_name is_valid_hostname valid_from encode_from
encode_name-host = refl

decode_name-pointer :
    (decode_name packet 11 7 255 ≡ (host, 9)) × (decode_name packet 11 9 255 ≡ ([], 11))
unfolding decode_name decode_loop copy_label
decode_name-pointer = (refl, refl)

decode_name-encode_name_example : decode_name packet 11 1 255 ≡ (host, 7)
decode_name-encode_name_example =
    decode_name-encode_name host packet host_bytes (0xC0 ∷ 1 ∷ 0xC0 ∷ 9 ∷ []) 1 255 host-valid
      encode_name-host refl (omega arith) (omega arith) (omega arith)

is_valid_hostname-is_hostname_example : is_valid_hostname host ≡ is_hostname host
is_valid_hostname-is_hostname_example = is_valid_hostname-is_hostname host
