-- ===== src/Tests/Answers.antt =====
-- Concrete answers of other services, and how the clients read them.
use aomarket_bot.Prelude.{◌≡◌, refl, Option, none, some, [], ◌∷◌}
use aomarket_bot.Clients.Json.{
  Json, null, number, text, array, object, Items, Fields, ok, index, rows, each,
}
use aomarket_bot.Clients.Gmi.{Orders, get_orders, orders_from_json, sell_order, buy_order}
use aomarket_bot.Clients.Gmi.Returns.{get_orders-returns}
use aomarket_bot.Clients.Scraper.{extract_aoids, find_all, find_from}
use aomarket_bot.Regex.{run, repeat}

-- A sell order whose price is null
abbrev row : Json
row = object (
    Fields.field "price" null (
      Fields.field "ql" (number "10")
        (Fields.field "count" (number "1") (Fields.field "seller" (text "Bob") Fields.end))))

abbrev book : Json
book = object (
    Fields.field "sell_orders" (array (Items.item row Items.empty))
      (Fields.field "buy_orders" (array Items.empty) Fields.end))

abbrev read_book : Orders
read_book = record {
  sell_orders =
      record { price = null; ql = number "10"; count = number "1"; seller = text "Bob" } ∷ [];
  buy_orders = [];
}

get_orders-null_price : get_orders "http://gmi/" (λ _. ok book) 7 ≡ ok (some read_book)
unfolding get_orders orders_from_json sell_order buy_order rows each index
get_orders-null_price = refl

get_orders-no_dict : get_orders "http://gmi" (λ _. ok (array Items.empty)) 7 ≡ ok none
unfolding get_orders orders_from_json index
get_orders-no_dict = refl

get_orders-returns_example :
    (answer : Option Orders) × (get_orders "http://gmi/" (λ _. ok book) 7 ≡ ok answer)
get_orders-returns_example = get_orders-returns "http://gmi/" (λ _. ok book) 7 (λ _. tt)

extract_aoids-two :
    extract_aoids
      "<a class=\"item-name\" href=\"/item/245990\">x</a> <A CLASS=\"item-name\"  HREF=\"/item/7\">"
    ≡ 245990 ∷ 7 ∷ []
unfolding extract_aoids find_all find_from run repeat
extract_aoids-two = refl
