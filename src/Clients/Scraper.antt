-- ===== src/Clients/Scraper.antt =====
-- src/aomarket/autotrack/scraper.py: the pages of the ranking, as latin-1 texts, and the item ids
-- on one. The web client is the argument `fetch`; an id has fewer digits than `int` refuses.
use aomarket_bot.Prelude.{
  ℕ, zero, suc, ◌+◌, ◌-◌, ◌*◌, String, Option, none, some, List, [], ◌∷◌, map,
}
use aomarket_bot.Prelude.Text.{codes, ◌<>◌, str}
use aomarket_bot.Regex.{Regex, At, char, group, plus, letters, run, size}
use aomarket_bot.Market.Commands.{◌⨾◌, spaces1, is_digit}
use aomarket_bot.Market.AutoTrack.{rstrip_slash}
use aomarket_bot.Clients.Json.{Read, ok, err, http_error, key_error, type_error, value_error}

-- `_ITEM_LINK_RE`
abbrev pub item_link : Regex
item_link =
    letters "class=\"item-name\""
    ⨾ spaces1
    ⨾ letters "href=\"/item/"
    ⨾ group (plus (char is_digit))
    ⨾ letters "\""

-- What is left of the text behind a match, before the captures
abbrev pub rest_first : At → Option (List String)
rest_first (rest, caps) = some (rest ∷ caps)

-- `findall` of a pattern with one group that takes a character at least: from each place on, or
-- behind a match. Each step takes a character, so fuel for their number is enough.
unfoldable pub find_from : Regex → ℕ → String → List String
unfolding run
find_from r zero s = []
find_from r (suc fuel) String.[] = []
find_from r (suc fuel) (String.◌∷◌ c s) = elim (run r (String.◌∷◌ c s, []) rest_first) [
  | some (rest ∷ id ∷ []) ↦ id ∷ find_from r fuel rest
  | _ ↦ find_from r fuel s
]

unfoldable pub find_all : Regex → String → List String
unfolding find_from
find_all r s = find_from r (size s) s

-- `int(text)` of a text of digits
abbrev pub digits_value : ℕ → List ℕ → ℕ
digits_value acc [] = acc
digits_value acc (c ∷ cs) = digits_value (acc * 10 + (c - 48)) cs

unfoldable pub extract_aoids : String → List ℕ
unfolding find_all
extract_aoids html = map (λ digits. digits_value 0 (codes digits)) (find_all item_link html)

-- The `except` clause
abbrev pub page_or_none : Read String → Read (Option String)
page_or_none (ok html) = ok (some html)
page_or_none (err http_error) = ok none
page_or_none (err key_error) = err key_error
page_or_none (err type_error) = err type_error
page_or_none (err value_error) = err value_error

unfoldable pub fetch_page : (String → Read String) → String → ℕ → Read (Option String)
unfolding rstrip_slash
fetch_page fetch source_url page =
    page_or_none (fetch (rstrip_slash source_url <> "/items/" <> str page))
