-- ===== src/Common/Types.antt =====
-- utils/types.h: the scalar types that the exchange and the participants share.
use hft_system.Base.{ℕ, suc, ◌+◌, ◌-◌, ◌%◌, ◌^◌, ◌*◌}
use hft_system.Base.Int.{ℤ, pos, negsuc}

abbrev pub me_max_tickers : ℕ
me_max_tickers = 8

abbrev pub me_max_num_clients : ℕ
me_max_num_clients = 256

abbrev pub me_max_order_ids : ℕ
me_max_order_ids = 1024 * 1024

abbrev pub me_max_price_levels : ℕ
me_max_price_levels = 256

-- `std::numeric_limits<OrderId>::max()`, and so for the other types.
abbrev pub order_id_invalid : ℕ
order_id_invalid = 2 ^ 64 - 1

abbrev pub ticker_id_invalid : ℕ
ticker_id_invalid = 2 ^ 32 - 1

abbrev pub client_id_invalid : ℕ
client_id_invalid = 2 ^ 64 - 1

abbrev pub price_invalid : ℤ
price_invalid = pos (2 ^ 63 - 1)

abbrev pub qty_invalid : ℕ
qty_invalid = 2 ^ 32 - 1

abbrev pub priority_invalid : ℕ
priority_invalid = 2 ^ 64 - 1

pub data Side : Type 0 where
  invalid buy sell : Side

pub Side-discrete : Discrete Side
Side-discrete = hlevel

-- `static_cast<size_t>(side)`: SELL is -1, and wraps.
unfoldable pub side_to_value : Side → ℕ
side_to_value Side.invalid = 0
side_to_value Side.buy = 1
side_to_value Side.sell = 2 ^ 64 - 1

unfoldable pub side_to_index : Side → ℕ
unfolding side_to_value
side_to_index side = (side_to_value side + 1) % 2 ^ 64

-- An `int64_t` converted to `uint64_t`.
abbrev pub to_unsigned : ℤ → ℕ
to_unsigned (pos n) = n % 2 ^ 64
to_unsigned (negsuc n) = (2 ^ 64 - suc n % 2 ^ 64) % 2 ^ 64
