-- ===== src/Clients/Aodb.antt =====
-- src/aomarket/aodb/client.py: the item database. The web client is the argument `request`.
use aomarket_bot.Prelude.{
  ℕ, String, Option, none, some, List, [], ◌∷◌, ◌++◌, length, ◌==◌, if◌then◌else◌,
}
use aomarket_bot.Prelude.Int.{ℤ, pos}
use aomarket_bot.Prelude.Text.{◌<>◌, str}
use aomarket_bot.Clients.Json.{
  Json, null, object, Read, ok, err, ◌>>=◌, ◌>>◌, get, index, rows, each, value_error,
}
use aomarket_bot.SettingsRepo.Values.{parse_int}
use aomarket_bot.Market.AutoTrack.{rstrip_slash}

-- A field holds whatever JSON the answer had; `None` and a missing field are both `null`.
pub record Item : Type 0 where
  pub aoid : Json
  pub name : Json
  pub ql : Json
  pub icon : Json
  pub description : Json

-- What the client is asked for, and a response: the result of `raise_for_status`, that of `json`,
-- and the header `X-Total-Count`.
pub data Param : Type 0 where
  text : String → Param
  int : ℤ → Param

pub record Response : Type 0 where
  pub status_code : ℕ
  pub raise_for_status : Read Unit
  pub json : Read Json
  pub total_count : Option String

abbrev pub Request : Type 0
Request = String → List (String × Param) → Read Response

abbrev pub or_null : Option Json → Json
or_null none = null
or_null (some value) = value

-- `data.get(key)`, reached only where `data` is a dict
abbrev pub get_field : String → Json → Json
get_field key (object fields) = or_null (get key fields)
get_field key _ = null

-- `_item_from_json`
unfoldable pub item_from_json : Json → Read Item
unfolding index
item_from_json data_ = do
  aoid ← index "id" data_
  name ← index "name" data_
  ql ← index "ql" data_
  ok (record {
    aoid = aoid;
    name = name;
    ql = ql;
    icon = get_field "icon" data_;
    description = get_field "description" data_;
  })

unfoldable pub get_item : String → Request → ℕ → Read (Option Item)
unfolding item_from_json rstrip_slash
get_item base_url request aoid = do
  response ← request (rstrip_slash base_url <> "/api/items/" <> str aoid) []
  let found = do
    response.raise_for_status
    data_ ← response.json
    item ← item_from_json data_
    ok (some item)
  if response.status_code == 404 then ok none else found

abbrev pub with_ql : Option ℤ → List (String × Param) → List (String × Param)
with_ql none params = params
with_ql (some ql) params = params ++ ("ql", int ql) ∷ []

-- `int(response.headers.get("X-Total-Count", len(items)))`
abbrev pub total_of : Option String → ℕ → Read ℤ
total_of none n = ok (pos n)
total_of (some header) n = elim (parse_int header) [
  | none ↦ err value_error
  | some total ↦ ok total
]

unfoldable pub search_items : String → Request → String → Option ℤ → ℤ → ℤ → Read (List Item × ℤ)
unfolding item_from_json rows each rstrip_slash parse_int
search_items base_url request query ql limit offset = do
  response ←
      request (rstrip_slash base_url <> "/api/items")
        (with_ql ql (("q", text query) ∷ ("limit", int limit) ∷ ("offset", int offset) ∷ []))
  response.raise_for_status
  data_ ← response.json
  found ← rows data_
  items ← each item_from_json found
  total_count ← total_of response.total_count (length items)
  ok (items, total_count)
