-- ===== src/Api.antt =====
-- src/aomarket/api: the routes as one function of a request, with the API key that comes with it.
-- A request is one that FastAPI has parsed: its paths, its queries and its body as values.
pub mod Requests
pub mod Answers
pub mod Routes
pub mod Serve
pub mod Kept
pub mod Guarded
pub mod Access
pub mod Isolation
pub mod Sound
