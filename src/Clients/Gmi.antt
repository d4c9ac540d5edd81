-- ===== src/Clients/Gmi.antt =====
-- src/aomarket/gmi/client.py: the order books. The web client is the argument `fetch`, which sends
-- a GET, checks the status and reads the JSON. A field of an order keeps whatever JSON it held.
pub mod Returns
use aomarket_bot.Prelude.{ℕ, String, Option, none, some, List}
use aomarket_bot.Prelude.Text.{◌<>◌, str}
use aomarket_bot.Clients.Json.{
  Json, Read, ok, err, ◌>>=◌, index, rows, each, key_error, type_error, value_error, http_error,
}
use aomarket_bot.Market.AutoTrack.{rstrip_slash}

pub record SellOrder : Type 0 where
  pub price : Json
  pub ql : Json
  pub count : Json
  pub seller : Json

pub record BuyOrder : Type 0 where
  pub price : Json
  pub min_ql : Json
  pub max_ql : Json
  pub count : Json
  pub buyer : Json

pub record Orders : Type 0 where
  pub sell_orders : List SellOrder
  pub buy_orders : List BuyOrder

unfoldable pub sell_order : Json → Read SellOrder
unfolding index
sell_order row = do
  price ← index "price" row
  ql ← index "ql" row
  count ← index "count" row
  seller ← index "seller" row
  ok (record { price = price; ql = ql; count = count; seller = seller })

unfoldable pub buy_order : Json → Read BuyOrder
unfolding index
buy_order row = do
  price ← index "price" row
  min_ql ← index "min_ql" row
  max_ql ← index "max_ql" row
  count ← index "count" row
  buyer ← index "buyer" row
  ok (record { price = price; min_ql = min_ql; max_ql = max_ql; count = count; buyer = buyer })

-- `_orders_from_json`
unfoldable pub orders_from_json : Json → Read Orders
unfolding sell_order buy_order rows each
orders_from_json data_ = do
  sells ← index "sell_orders" data_
  sell_rows ← rows sells
  sell_orders ← each sell_order sell_rows
  buys ← index "buy_orders" data_
  buy_rows ← rows buys
  buy_orders ← each buy_order buy_rows
  ok (record { sell_orders = sell_orders; buy_orders = buy_orders })

-- The two `except` clauses
abbrev pub answer_or_none : Read Json → Read (Option Json)
answer_or_none (ok data_) = ok (some data_)
answer_or_none (err http_error) = ok none
answer_or_none (err value_error) = ok none
answer_or_none (err key_error) = err key_error
answer_or_none (err type_error) = err type_error

abbrev pub orders_or_none : Read Orders → Read (Option Orders)
orders_or_none (ok orders) = ok (some orders)
orders_or_none (err key_error) = ok none
orders_or_none (err type_error) = ok none
orders_or_none (err value_error) = ok none
orders_or_none (err http_error) = err http_error

abbrev pub decode : Option Json → Read (Option Orders)
decode none = ok none
decode (some data_) = orders_or_none (orders_from_json data_)

unfoldable pub get_orders : String → (String → Read Json) → ℕ → Read (Option Orders)
unfolding orders_from_json rstrip_slash
get_orders base_url fetch aoid =
    answer_or_none (fetch (rstrip_slash base_url <> "/v1.0/aoid/" <> str aoid)) >>= decode
