-- ===== src/Market/AutoTrack.antt =====
-- service.py: the resync of the top traded items, with the paging of the scraper.
use Prim.Native.Nat.{min}
use Prim.Native.Char.{code}
use aomarket_bot.Prelude.{
  ℕ, zero, suc, ◌+◌, ◌/◌, String, true, not, ◌&&◌, Option, none, some, List, [], ◌∷◌, ◌++◌, map,
  take, leb, ◌==◌, str_eq, length, if◌then◌else◌,
}
use aomarket_bot.Prelude.Int.{ℤ, pos, negsuc, sub_ℕ}
use aomarket_bot.Prelude.Table.{any}
use aomarket_bot.Prelude.Text.{str, ◌<>◌}
use aomarket_bot.Exec.{Result, ok, and_then, Action, pure, lift, clock, for_each, ◌>>=◌, ◌>>◌}
use aomarket_bot.MarketRepo.{unflag_autotrack_not_in, existing_aoids, upsert_watch}
use aomarket_bot.BackoffRepo.{due_for_retry, record_failure, record_success}
use aomarket_bot.SettingsRepo.{get_bool, get_int, get_str}
use aomarket_bot.SettingsRepo
use aomarket_bot.SettingsRepo.Values.{SettingValue}
use aomarket_bot.Market.Env.{Env, Item}
use aomarket_bot.Market.Announce.{announce_background, announce_tracked}

-- _MAX_AUTOTRACK_PAGES
abbrev pub max_autotrack_pages : ℕ
max_autotrack_pages = 50

-- `text.rstrip("/")`
unfoldable pub rstrip_slash : String → String
rstrip_slash String.[] = ""
rstrip_slash (String.◌∷◌ c s) =
    let rest = rstrip_slash s in if str_eq rest "" && code c == b'/' then "" else String.◌∷◌ c rest

-- `for aoid in found: if aoid not in aoids: aoids.append(aoid)`
unfoldable pub add_missing : List ℕ → List ℕ → List ℕ
add_missing aoids [] = aoids
add_missing aoids (a ∷ found) =
    add_missing (if any (λ b. b == a) aoids then aoids else aoids ++ a ∷ []) found

-- `int(now_epoch())`
epoch_seconds : ℤ → ℤ
epoch_seconds (pos n) = pos (n / 1000000)
epoch_seconds (negsuc n) = sub_ℕ 0 (suc n / 1000000)

pub record AutoTrackSummary : Type 0 where
  pub pages_fetched : ℕ
  pub ranked_count : ℕ
  pub resolved_count : ℕ

module _ (env : Env) where
  -- The pages left to ask for, the number of the next one, and the two variables of the loop
  unfoldable pub fetch_pages : String → ℕ → ℕ → ℕ → List ℕ → ℕ → List ℕ × ℕ
  unfolding add_missing
  fetch_pages url count zero page aoids fetched = (aoids, fetched)
  fetch_pages url count (suc left) page aoids fetched = elim (env.fetch_page url page) [
    | none ↦ (aoids, fetched)
    | some [] ↦ (aoids, fetched)
    | some (a ∷ found) ↦
        let more = add_missing aoids (a ∷ found) in
        let next = fetch_pages url count left (page + 1) more (fetched + 1) in
        if leb count (length more) then (more, fetched + 1) else next
  ]

  -- `asyncio.gather`: the first failure is raised
  unfoldable pub gather : List ℕ → Result (List (ℕ × Option Item))
  gather [] = ok []
  gather (a ∷ rest) =
      and_then (env.get_item a) (λ item. and_then (gather rest) (λ items. ok ((a, item) ∷ items)))

  -- The loop over the answers: the items found
  unfoldable pub settle : List (ℕ × Option Item) → Action (List (ℕ × Item))
  unfolding ◌>>=◌
  settle [] = pure []
  settle ((aoid, none) ∷ rest) = do record_failure aoid; settle rest
  settle ((aoid, some item) ∷ rest) = do
    record_success aoid
    resolved ← settle rest
    pure ((aoid, item) ∷ resolved)

  unfoldable pub resolve : List ℕ → Action (List (ℕ × Item))
  unfolding gather settle ◌>>=◌
  resolve aoids = do due ← due_for_retry aoids; items ← lift (gather due); settle items

  unfoldable pub track : List ℕ → ℕ × Item → Action Unit
  unfolding ◌>>=◌
  track existing (aoid, item) = do
    upsert_watch aoid item.name item.ql item.icon true
    if any (λ b. b == aoid) existing then pure tt else announce_tracked env item.name "auto"

  unfoldable pub sync_ranked : List ℕ → ℕ → Action AutoTrackSummary
  unfolding resolve track for_each epoch_seconds ◌>>=◌
  sync_ranked aoids pages_fetched = do
    resolved ← resolve aoids
    let keys = map (λ (r : ℕ × Item). r.0) resolved
    unflag_autotrack_not_in keys
    existing ← existing_aoids keys
    for_each resolved (track existing)
    now ← clock
    SettingsRepo.set "AutoTrackLastSync" (SettingValue.int (epoch_seconds now))
    announce_background env (
        "Resync complete: "
        <> str pages_fetched
        <> " page(s) fetched, "
        <> str (length aoids)
        <> " ranked AOID(s) found, "
        <> str (length resolved)
        <> " resolved against aodb-api and now auto-tracked")
    pure (record {
      pages_fetched = pages_fetched;
      ranked_count = length aoids;
      resolved_count = length resolved;
    })

  -- From the pages that were fetched: `aoids[:count]`
  unfoldable pub sync_pages : ℕ → List ℕ × ℕ → Action (Option AutoTrackSummary)
  unfolding sync_ranked ◌>>=◌
  sync_pages count (aoids, pages_fetched) =
      if pages_fetched == 0
      then pure none
      else do summary ← sync_ranked (take count aoids) pages_fetched; pure (some summary)

  -- With a target of `count`: the ceiling of `count / 20` is the number of pages.
  unfoldable pub sync_count : ℤ → Action (Option AutoTrackSummary)
  unfolding sync_pages fetch_pages rstrip_slash ◌>>=◌
  sync_count (negsuc n) = pure none
  sync_count (pos zero) = pure none
  sync_count (pos (suc n)) = do
    source_url ← get_str "AutoTrackSourceUrl"
    let pages = min max_autotrack_pages ((suc n + 19) / 20)
    sync_pages (suc n) (fetch_pages (rstrip_slash source_url) (suc n) pages 1 [] 0)

  unfoldable pub sync_top_traded_items : Action (Option AutoTrackSummary)
  unfolding sync_count ◌>>=◌
  sync_top_traded_items = do
    enabled ← get_bool "AutoTrackEnabled"
    if not enabled then pure none else do count ← get_int "AutoTrackCount"; sync_count count
