-- ===== src/Ntp/Text.antt =====
-- Src/ntp_client.c: ntp_get_error_string; and the error codes of Inc/ntp_client.h.
use Prim.Native.String.{String}
use wiznet_driver.Base.{◌≡◌, refl, List, [], ◌∷◌}
use wiznet_driver.Base.Int.{ℤ, negsuc}
use wiznet_driver.Base.Text.{error_string}
use wiznet_driver.Ntp.Packet.{Error, invalid_param, socket_fail, timeout, invalid_response}
use wiznet_driver.Ntp.Packet.{server_error, network, unsynchronized}

abbrev pub error_code : Error → ℤ
error_code invalid_param = negsuc 0
error_code socket_fail = negsuc 1
error_code timeout = negsuc 2
error_code invalid_response = negsuc 3
error_code server_error = negsuc 4
error_code network = negsuc 5
error_code unsynchronized = negsuc 6

abbrev pub ntp_error_strings : List String
ntp_error_strings =
    "Success" ∷ "Invalid parameter" ∷ "Socket operation failed" ∷ "Operation timed out"
    ∷ "Invalid NTP response" ∷ "NTP server error" ∷ "Network error" ∷ "Server not synchronized" ∷ []

abbrev pub ntp_get_error_string : ℤ → String
ntp_get_error_string = error_string ntp_error_strings

unsynchronized-run : ntp_get_error_string (error_code unsynchronized) ≡ "Server not synchronized"
unsynchronized-run = refl

beyond-run : ntp_get_error_string (negsuc 7) ≡ "Unknown error"
beyond-run = refl
