-- ===== src/WebSocket/Handshake.antt =====
-- Src/websocket_client.c: the texts of the opening handshake: ws_generate_key, the request that
-- ws_client_connect prints with snprintf, and ws_parse_handshake_response with strstr.
pub mod Printed
use wiznet_driver.Base.{ℕ, zero, suc, ◌+◌, ◌-◌, ◌/◌, ◌%◌, ◌^◌, bit_and, Bool, true, false, not}
use wiznet_driver.Base.{◌&&◌, ◌||◌, ltb, ◌==◌, if◌then◌else◌, List, [], ◌∷◌, ◌++◌, take, get_or}
use wiznet_driver.Base.Bits.{low_bits}
use wiznet_driver.Base.Int.{ℤ}
use wiznet_driver.WebSocket.Client.{Config, ws_ok}
use wiznet_driver.WebSocket.Base64.{codes, base64_encode}

abbrev pub ws_err_handshake_fail : ℤ
ws_err_handshake_fail = ℤ.negsuc 5

abbrev pub ws_key_len : ℕ
ws_key_len = 16

-- `handshake[512]`
abbrev pub handshake_size : ℕ
handshake_size = 512

-- `\r\n`
abbrev pub crlf : List ℕ
crlf = 13 ∷ 10 ∷ []

-- `%d` of a number that is not negative: its last digit, and before it those of the rest. The
-- numbers of the request have at most five digits.
unfoldable pub decimal : ℕ → ℕ → List ℕ
decimal zero n = []
decimal (suc digits) n =
    let rest = decimal digits (n / 10) in (if ltb n 10 then [] else rest) ++ ((48 + n % 10) ∷ [])

abbrev pub concat : List (List ℕ) → List ℕ
concat [] = []
concat (part ∷ parts) = part ++ concat parts

-- The text that the format string of `ws_client_connect` stands for, piece by piece.
abbrev pub pieces : Config → List ℕ → List (List ℕ)
pieces c key =
    codes "GET "
    ∷ c.path
    ∷ codes " HTTP/1.1"
    ∷ crlf
    ∷ codes "Host: "
    ∷ decimal 5 (get_or c.host 0 0)
    ∷ codes "."
    ∷ decimal 5 (get_or c.host 1 0)
    ∷ codes "."
    ∷ decimal 5 (get_or c.host 2 0)
    ∷ codes "."
    ∷ decimal 5 (get_or c.host 3 0)
    ∷ codes ":"
    ∷ decimal 5 c.port
    ∷ crlf
    ∷ codes "Upgrade: websocket"
    ∷ crlf
    ∷ codes "Connection: Upgrade"
    ∷ crlf
    ∷ codes "Sec-WebSocket-Key: "
    ∷ key
    ∷ crlf
    ∷ codes "Sec-WebSocket-Version: 13"
    ∷ crlf
    ∷ crlf
    ∷ []

unfoldable pub request : Config → List ℕ → List ℕ
unfolding decimal
request c key = concat (pieces c key)

-- snprintf writes at most one character less than the buffer holds.
unfoldable pub handshake : Config → List ℕ → List ℕ
unfolding request
handshake c key = take (handshake_size - 1) (request c key)

abbrev pub starts_with : List ℕ → List ℕ → Bool
starts_with [] text = true
starts_with (x ∷ xs) [] = false
starts_with (x ∷ xs) (c ∷ cs) = x == c && starts_with xs cs

-- `strstr(text, word) != NULL`
unfoldable pub contains : List ℕ → List ℕ → Bool
contains word [] = starts_with word []
contains word (c ∷ cs) = starts_with word (c ∷ cs) || contains word cs

unfoldable pub ws_parse_handshake_response : List ℕ → ℤ
unfolding contains
ws_parse_handshake_response response =
    if not (contains (codes "101") response)
      || not (contains (codes "Switching Protocols") response)
    then ws_err_handshake_fail
    else ws_ok

module _ {World : Type 0} (rand : World → ℕ × World) where
  -- `n` bytes of random numbers.
  unfoldable pub random_bytes : ℕ → World → List ℕ × World
  random_bytes zero w = ([], w)
  random_bytes (suc n) w =
      let (r, w1) = rand w in let (rs, w2) = random_bytes n w1 in (low_bits r 8 ∷ rs, w2)

  unfoldable pub ws_generate_key : World → List ℕ × World
  unfolding random_bytes base64_encode
  ws_generate_key w =
      let (raw_key, w1) = random_bytes ws_key_len w in (take 24 (base64_encode raw_key), w1)
