-- ===== src/Dns/Result.antt =====
-- Inc/dns_client.h: constants, and `DNS_OK` with a value or an error code.
use wiznet_driver.Base.{ℕ}

pub data Error : Type 0 where
  invalid_param socket_fail timeout format server_error name_not_found : Error
  buffer_too_small network : Error

pub data Result {ℓ} (A : Type ℓ) : Type ℓ where
  ok : A → Result A
  err : Error → Result A

infixl 5 ◌>>=◌
abbrev pub ◌>>=◌ {ℓ κ} : {A : Type ℓ} {B : Type κ} → Result A → (A → Result B) → Result B
ok a >>= f = f a
err e >>= f = err e

abbrev pub dns_max_name_length : ℕ
dns_max_name_length = 253

abbrev pub dns_max_label_length : ℕ
dns_max_label_length = 63

abbrev pub dns_header_size : ℕ
dns_header_size = 12

abbrev pub dns_max_packet_size : ℕ
dns_max_packet_size = 512

abbrev pub dns_port : ℕ
dns_port = 53
