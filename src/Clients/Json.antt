-- ===== src/Clients/Json.antt =====
-- What `response.json()` returns, and how the clients index it. A number keeps its text.
use aomarket_bot.Prelude.{String, str_eq, Bool, Option, none, some, List, [], ◌∷◌, if◌then◌else◌}

mutual
  pub data Json : Type 0 where
    null : Json
    bool : Bool → Json
    number : String → Json
    text : String → Json
    array : Items → Json
    object : Fields → Json

  pub data Items : Type 0 where
    empty : Items
    item : Json → Items → Items

  -- The keys of an object differ.
  pub data Fields : Type 0 where
    end : Fields
    field : String → Json → Fields → Fields

-- The exceptions that the code around meets
pub data JsonError : Type 0 where
  key_error type_error value_error http_error : JsonError

pub data Read (A : Type 0) : Type 0 where
  ok : A → Read A
  err : JsonError → Read A

infixl 5 ◌>>=◌ ◌>>◌
abbrev pub ◌>>=◌ : {A B : Type 0} → Read A → (A → Read B) → Read B
ok a >>= f = f a
err e >>= f = err e

abbrev pub ◌>>◌ : {A B : Type 0} → Read A → Read B → Read B
m >> n = m >>= λ _. n

-- `data.get(key)` of a dict
abbrev pub get : String → Fields → Option Json
get key end = none
get key (field name value rest) =
    let more = get key rest in if str_eq key name then some value else more

abbrev pub found : Option Json → Read Json
found none = err key_error
found (some value) = ok value

-- `data[key]`: only a dict takes a text for an index.
unfoldable pub index : String → Json → Read Json
index key (object fields) = found (get key fields)
index key null = err type_error
index key (bool b) = err type_error
index key (number n) = err type_error
index key (text t) = err type_error
index key (array items) = err type_error

-- What `for row in data` goes through: the keys of a dict, the characters of a text.
abbrev pub keys : Fields → List Json
keys end = []
keys (field name value rest) = text name ∷ keys rest

abbrev pub characters : String → List Json
characters String.[] = []
characters (String.◌∷◌ c rest) = text (String.◌∷◌ c String.[]) ∷ characters rest

abbrev pub elements : Items → List Json
elements empty = []
elements (item row rest) = row ∷ elements rest

unfoldable pub rows : Json → Read (List Json)
rows (array items) = ok (elements items)
rows (object fields) = ok (keys fields)
rows (text t) = ok (characters t)
rows null = err type_error
rows (bool b) = err type_error
rows (number n) = err type_error

-- `[f(row) for row in data]`
unfoldable pub each : {A : Type 0} → (Json → Read A) → List Json → Read (List A)
each f [] = ok []
each f (row ∷ rest) = do a ← f row; more ← each f rest; ok (a ∷ more)
