-- ===== src/Udp/Text.antt =====
-- Src/udp_client.c: udp_client_get_error_string; and the codes of Inc/udp_client.h.
use Prim.Native.String.{String}
use wiznet_driver.Base.{◌≡◌, refl, List, [], ◌∷◌}
use wiznet_driver.Base.Int.{ℤ, pos, negsuc}
use wiznet_driver.Base.Text.{error_string}
use wiznet_driver.Udp.{UdpResult, udp_ok, udp_error_invalid_param, udp_error_socket_fail}
use wiznet_driver.Udp.{udp_error_not_initialized, udp_error_send_fail}

abbrev pub result_code : UdpResult → ℤ
result_code udp_ok = pos 0
result_code udp_error_invalid_param = negsuc 0
result_code udp_error_socket_fail = negsuc 1
result_code udp_error_not_initialized = negsuc 2
result_code udp_error_send_fail = negsuc 3

abbrev pub udp_error_strings : List String
udp_error_strings =
    "Success" ∷ "Invalid parameter" ∷ "Socket operation failed" ∷ "Client not initialized"
    ∷ "Send operation failed" ∷ []

abbrev pub udp_client_get_error_string : ℤ → String
udp_client_get_error_string = error_string udp_error_strings

ok-run : udp_client_get_error_string (result_code udp_ok) ≡ "Success"
ok-run = refl

send_fail-run :
    udp_client_get_error_string (result_code udp_error_send_fail) ≡ "Send operation failed"
send_fail-run = refl
