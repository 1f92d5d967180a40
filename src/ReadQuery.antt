-- ===== src/ReadQuery.antt =====
-- internal/readquery: the ordinary-read query, its parser from the URL, and its page.
pub mod Query
pub mod Failure
pub mod Field
pub mod Filter
pub mod InList
pub mod Groups
pub mod Page
pub mod Order
pub mod SelectParts
pub mod Select
pub mod EmbedParams
pub mod Presence
pub mod Parse
