-- ===== src/Relay.antt =====
-- apps/relay/src: the relay between desktops and phones.
pub mod State
pub mod Desktops
pub mod Pairings
pub mod Links
pub mod Pending
pub mod Validity
pub mod Audit
pub mod Output
pub mod DesktopHandler
pub mod MobileHandler
pub mod App
pub mod Routing
pub mod Tests
