-- ===== src/Lib.antt =====
-- A verification library of aomarket-bot, a chat bot and HTTP service that watches the item market
-- of a game: it polls order books, tells subscribers about new orders, and keeps its state in
-- PostgreSQL.
--
-- The program's parts, and the file that models each:
-- - the tables (src/aomarket/db/models.py): Db, a record of lists of rows, in the order of
--   insertion. Db/Integrity states the unique keys and the foreign keys.
-- - Exec: an asynchronous method is a function from a World (database, clock, chat messages sent) to
--   a result or an error, beside the new World. Every repository method commits, so what was
--   written before an error stays written. Exec/Keeps says what a method keeps true.
-- - src/aomarket/db/market_repo.py: MarketRepo, by table (Users, Watches, Subscriptions, Alerts).
-- - src/aomarket/db/aodb_backoff_repo.py: BackoffRepo, with the delay in BackoffRepo/Delay.
-- - src/aomarket/db/api_key_repo.py: ApiKeyRepo.
-- - src/aomarket/db/settings_repo.py: SettingsRepo, with the texts of values in SettingsRepo/Values.
-- - src/aomarket/market/parsing.py: Market/Parsing.
-- - src/aomarket/market/service.py (`MarketService`): Market/Announce (messages and the log of
--   actions), Market/Players (registration, statistics), Market/Watching (tracking, subscriptions,
--   filters), Market/Alerts (new orders, notification, delivery), Market/Poll (`poll_market`),
--   Market/AutoTrack (`sync_top_traded_items`). Market/Env has what the service calls:
--   the item database, the order books, the pages of the ranking, the chat callbacks,
--   and Python's floating point, all parameters.
-- - src/aomarket/auth/service.py and src/aomarket/api/auth_deps.py: Auth. PBKDF2 is a parameter, and
--   the random part of a token an argument.
-- - src/aomarket/aochat/packet.py and protocol.py: Chat/Packet. client.py: Chat/Login, and the
--   dispatch and the reader loop in Chat/Client, and lookups by name in Chat/Lookup, each two steps
--   with packets between them. crypto.py: Chat/Crypto, the block cipher and the login blob,
--   and Chat/Exchange, the key of a login from what was drawn at random.
-- - src/aomarket/market/commands.py: Market/Commands (the patterns and which one a message matches)
--   and Market/Dispatch (what each command calls and answers, with longer texts in
--   Market/Replies). Regex is the part of Python's `re` that the patterns use.
--   market/rendering.py: Market/Rendering.
-- - src/aomarket/bot/admin_commands.py: Bot/Admin. bot/runner.py: the handler of a tell in Bot/Tells.
--   bot/scheduler.py: the rounds of both loops in Bot/Loops.
-- - src/aomarket/api/routes: Api/Routes, a child for each file. Api/Requests has the requests, the
--   bodies (api/schemas.py) and the status codes of errors (api/app.py); Api/Serve puts the guard of
--   each route before its handler.
-- - src/aomarket/gmi, aodb and autotrack: Clients, where each call and the reading of its answer
--   stand; Clients/Json is what `response.json()` gives. Market/Env takes the answers as they
--   are where the fields of an item and of an order are numbers.
-- - Market/Reads, Market/Dispatch/Kept and Api/Kept say what commands and requests keep true of the
--   world, given what the methods that write keep.
-- - Runs puts service calls, tells, requests and rounds of the scheduler together. Tests has
--   concrete data.
--
-- A method keeps its name, its guards and its order of writes. A body under a guard that the
-- source nests is a definition of its own beside the method, such as `subscribe_item` beside
-- `subscribe`. A set is a list in the order in which the source could walk it; averages are
-- unrounded quotients; times are whole microseconds.
--
-- Bounds and fuel: `read_loop` of Chat/Client is on fuel: each packet takes four bytes at
-- least, so one unit for each byte and one more is enough. Words of the cipher wrap at
-- 2^32. The delays of the backoff raise where Python's timedelta does.
--
-- A repetition of a pattern runs on fuel too, as many rounds as the text has characters: each
-- round takes one at least.
--
-- Not modelled: how the web framework parses a request, the probe of the database in `/healthz`, the
-- texts of a refusal by a guard, the web client behind the clients of other services, start-up,
-- configuration and logging, the keepalive of the chat client, and the bridge between the two
-- threads. Texts are latin-1 where a pattern reads them, as the chat client decodes
-- them. Two calls never run at once here: a race between two sessions of the database is out of
-- scope.
pub mod Prelude
pub mod Db
pub mod Exec
pub mod Regex
pub mod MarketRepo
pub mod BackoffRepo
pub mod ApiKeyRepo
pub mod SettingsRepo
pub mod Market
pub mod Auth
pub mod Chat
pub mod Clients
pub mod Bot
pub mod Api
pub mod Runs
pub mod Tests
