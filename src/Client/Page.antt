-- ===== src/Client/Page.antt =====
-- The services of client/src/app/core/services that keep the state of a page.
pub mod Theme
pub mod Loading
pub mod Storage
pub mod Title
pub mod Popup
use bid_battle.Prelude.{Bool}
