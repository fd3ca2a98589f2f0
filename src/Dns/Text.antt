-- ===== src/Dns/Text.antt =====
-- Src/dns_client.c: dns_get_error_string; and the error codes of Inc/dns_client.h.
use Prim.Native.String.{String}
use wiznet_driver.Base.{◌≡◌, refl, List, [], ◌∷◌}
use wiznet_driver.Base.Int.{ℤ, pos, negsuc}
use wiznet_driver.Base.Text.{error_string}
use wiznet_driver.Dns.Result.{Error, invalid_param, socket_fail, timeout, format, server_error}
use wiznet_driver.Dns.Result.{name_not_found, buffer_too_small, network}

abbrev pub error_code : Error → ℤ
error_code invalid_param = negsuc 0
error_code socket_fail = negsuc 1
error_code timeout = negsuc 2
error_code format = negsuc 3
error_code server_error = negsuc 4
error_code name_not_found = negsuc 5
error_code buffer_too_small = negsuc 6
error_code network = negsuc 7

abbrev pub dns_error_strings : List String
dns_error_strings =
    "Success" ∷ "Invalid parameter" ∷ "Socket operation failed" ∷ "Operation timed out"
    ∷ "Invalid DNS format" ∷ "DNS server error" ∷ "Domain name not found" ∷ "Buffer too small"
    ∷ "Network error" ∷ []

abbrev pub dns_get_error_string : ℤ → String
dns_get_error_string = error_string dns_error_strings

network-run : dns_get_error_string (error_code network) ≡ "Network error"
network-run = refl

positive-run : dns_get_error_string (pos 1) ≡ "Unknown error"
positive-run = refl

beyond-run : dns_get_error_string (negsuc 8) ≡ "Unknown error"
beyond-run = refl
