-- ===== src/Market/Env.antt =====
-- The parts that service.py calls and that answer from outside: aodb-api, the GMI order books,
-- the pages of the ranking, the chat callbacks, and Python's floating point.
use aomarket_bot.Prelude.{ℕ, String, Bool, Option, List}
use aomarket_bot.Prelude.Int.{ℤ}
use aomarket_bot.Exec.{Error, Result}

pub record Item : Type 0 where
  pub aoid : ℕ
  pub name : String
  pub ql : ℕ
  pub icon : Option ℕ
  pub description : Option String

pub record SellOrder : Type 0 where
  pub price : ℕ
  pub ql : ℕ
  pub count : ℕ
  pub seller : String

pub record BuyOrder : Type 0 where
  pub price : ℕ
  pub min_ql : ℕ
  pub max_ql : ℕ
  pub count : ℕ
  pub buyer : String

pub record Orders : Type 0 where
  pub sell_orders : List SellOrder
  pub buy_orders : List BuyOrder

-- A callback that is not set is `none`; one that is set returns, or raises the error given.
pub record ChatSink : Type 0 where
  pub send_privgroup : Option (String → Option Error)
  pub send_tell : Option (String → String → Option Error)
  pub is_online : Option (String → Result Bool)

-- What the source computes with Python's floats: `str(round(value / unit, 1))`,
-- `f"{value:,.0f}"`, and `round(float(text) * multiplier)`.
pub record Floats : Type 0 where
  pub tenths : ℕ → ℕ → String
  pub grouped : ℕ → String
  pub scaled : List ℕ → ℕ → Result ℕ

-- What Python prints: `repr` of a text, a date as `%Y-%m-%d`, and what `float` makes of a text, as
-- the text of its `repr`.
pub record Texts : Type 0 where
  pub repr : String → String
  pub date : ℤ → String
  pub to_float : String → Option String

-- The arguments of `search_items` are the query, the level asked for, `limit` and `offset`.
-- `get_item` is `none` on a 404 and raises on any other failure, as `search_items` does on every
-- failure; `get_orders` is `none` on every
-- failure, and so is `fetch_page`, which gives the item ids that the page links to.
pub record Env : Type 0 where
  pub get_item : ℕ → Result (Option Item)
  pub search_items : String → Option ℤ → ℤ → ℤ → Result (List Item × ℕ)
  pub get_orders : ℕ → Option Orders
  pub fetch_page : String → ℕ → Option (List ℕ)
  pub chat : ChatSink
  pub floats : Floats
  pub texts : Texts
