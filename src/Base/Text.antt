-- ===== src/Base/Text.antt =====
-- The lookup of an error's text, which three of the clients have: `table` holds the texts of the
-- codes 0, -1, -2 and so on.
use Prim.Native.Nat.{zero, suc, ◌+◌}
use Prim.Native.String.{String}
use mathlib.Core.List.{List}
use wiznet_driver.Base.Int.{ℤ, pos, negsuc}
use wiznet_driver.Base.Lists.{get_or}

abbrev pub unknown_error : String
unknown_error = "Unknown error"

abbrev pub error_string : List String → ℤ → String
error_string table (pos zero) = get_or table 0 unknown_error
error_string table (pos (suc n)) = unknown_error
error_string table (negsuc n) = get_or table (n + 1) unknown_error
