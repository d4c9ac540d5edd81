-- ===== src/Clients/Gmi/Returns.antt =====
-- src/aomarket/gmi/client.py: that an answer of any shape is read without an exception.
use aomarket_bot.Prelude.{ℕ, String, ◌≡◌, refl, Option, none, some, List, [], ◌∷◌}
use aomarket_bot.Prelude.Text.{◌<>◌, str}
use aomarket_bot.Clients.Json.{
  Json, null, bool, number, text, array, object, Read, ok, err, ◌>>=◌, get, found, index, rows,
  each, key_error, type_error, value_error, http_error,
}
use aomarket_bot.Clients.Gmi.{
  Orders, sell_order, buy_order, orders_from_json, answer_or_none, orders_or_none, decode,
  get_orders,
}
use aomarket_bot.Market.AutoTrack.{rstrip_slash}

-- What reads JSON raises a KeyError, a TypeError or a ValueError at most.
abbrev IsCaught : {A : Type 0} → Read A → Type 0
IsCaught (ok a) = Unit
IsCaught (err key_error) = Unit
IsCaught (err type_error) = Unit
IsCaught (err value_error) = Unit
IsCaught (err http_error) = ⊥

-- What the web client and its `json` raise
abbrev pub IsFetched : {A : Type 0} → Read A → Type 0
IsFetched (ok a) = Unit
IsFetched (err http_error) = Unit
IsFetched (err value_error) = Unit
IsFetched (err key_error) = ⊥
IsFetched (err type_error) = ⊥

bind-IsCaught :
    {A B : Type 0} (m : Read A) (f : A → Read B)
    → IsCaught m
    → ((a : A) → IsCaught (f a))
    → IsCaught (m >>= f)
bind-IsCaught (ok a) f c k = k a
bind-IsCaught (err key_error) f c k = tt
bind-IsCaught (err type_error) f c k = tt
bind-IsCaught (err value_error) f c k = tt
bind-IsCaught (err http_error) f c k = elim c [ ]

found-IsCaught : (o : Option Json) → IsCaught (found o)
found-IsCaught none = tt
found-IsCaught (some value) = tt

index-IsCaught : (key : String) (data_ : Json) → IsCaught (index key data_)
unfolding index
index-IsCaught key (object fields) = found-IsCaught (get key fields)
index-IsCaught key null = tt
index-IsCaught key (bool b) = tt
index-IsCaught key (number n) = tt
index-IsCaught key (text t) = tt
index-IsCaught key (array items) = tt

index-then :
    {B : Type 0} (key : String) (data_ : Json) (f : Json → Read B)
    → ((a : Json) → IsCaught (f a))
    → IsCaught (index key data_ >>= f)
index-then key data_ f = bind-IsCaught (index key data_) f (index-IsCaught key data_)

rows-IsCaught : (data_ : Json) → IsCaught (rows data_)
unfolding rows
rows-IsCaught (array items) = tt
rows-IsCaught (object fields) = tt
rows-IsCaught (text t) = tt
rows-IsCaught null = tt
rows-IsCaught (bool b) = tt
rows-IsCaught (number n) = tt

each-IsCaught :
    {A : Type 0} (f : Json → Read A)
    → ((row : Json) → IsCaught (f row))
    → (all : List Json) → IsCaught (each f all)
unfolding each
each-IsCaught f c [] = tt
each-IsCaught f c (row ∷ rest) =
    bind-IsCaught (f row) _ (c row)
      λ a. bind-IsCaught (each f rest) _ (each-IsCaught f c rest) λ more. tt

sell_order-IsCaught : (row : Json) → IsCaught (sell_order row)
unfolding sell_order
sell_order-IsCaught row =
    index-then "price" row _ λ _.
      index-then "ql" row _ λ _. index-then "count" row _ λ _. index-then "seller" row _ λ _. tt

buy_order-IsCaught : (row : Json) → IsCaught (buy_order row)
unfolding buy_order
buy_order-IsCaught row = index-then "price" row _ λ _. index-then "min_ql" row _ λ _.
    index-then "max_ql" row _ λ _. index-then "count" row _ λ _. index-then "buyer" row _ λ _. tt

orders_from_json-IsCaught : (data_ : Json) → IsCaught (orders_from_json data_)
unfolding orders_from_json
orders_from_json-IsCaught data_ = index-then "sell_orders" data_ _ λ sells.
    bind-IsCaught (rows sells) _ (rows-IsCaught sells) λ sell_rows.
      bind-IsCaught (each sell_order sell_rows) _
        (each-IsCaught sell_order sell_order-IsCaught sell_rows)
        λ _. index-then "buy_orders" data_ _ λ buys.
          bind-IsCaught (rows buys) _ (rows-IsCaught buys) λ buy_rows.
            bind-IsCaught (each buy_order buy_rows) _
              (each-IsCaught buy_order buy_order-IsCaught buy_rows) λ _. tt

orders_or_none-returns :
    (r : Read Orders) → IsCaught r → (answer : Option Orders) × (orders_or_none r ≡ ok answer)
orders_or_none-returns (ok orders) c = (some orders, refl)
orders_or_none-returns (err key_error) c = (none, refl)
orders_or_none-returns (err type_error) c = (none, refl)
orders_or_none-returns (err value_error) c = (none, refl)
orders_or_none-returns (err http_error) c = elim c [ ]

answer-returns :
    (r : Read Json)
    → IsFetched r
    → (answer : Option Orders) × ((answer_or_none r >>= decode) ≡ ok answer)
answer-returns (ok data_) c =
    orders_or_none-returns (orders_from_json data_) (orders_from_json-IsCaught data_)
answer-returns (err http_error) c = (none, refl)
answer-returns (err value_error) c = (none, refl)
answer-returns (err key_error) c = elim c [ ]
answer-returns (err type_error) c = elim c [ ]

-- Asking for the orders of an item raises nothing, whatever JSON the service answers, where the
-- web client raises only HTTP errors and the ValueError of a text that is no JSON.
pub get_orders-returns :
    (base_url : String) (fetch : String → Read Json) (aoid : ℕ)
    → ((url : String) → IsFetched (fetch url))
    → (answer : Option Orders) × (get_orders base_url fetch aoid ≡ ok answer)
unfolding get_orders
get_orders-returns base_url fetch aoid c =
    answer-returns (fetch (rstrip_slash base_url <> "/v1.0/aoid/" <> str aoid)) (c _)
