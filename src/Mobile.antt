-- ===== src/Mobile.antt =====
-- apps/mobile/src/state: what the phone knows of the sessions of its desktop.
pub mod Terminal
pub mod Render
pub mod State
pub mod Events
pub mod Consistency
pub mod Removal
pub mod Reducer
pub mod Client
pub mod Pairing
pub mod Coordinator
pub mod Inbox
pub mod Presentation
pub mod PlainTerminal
pub mod Palette
pub mod Answers
pub mod Composer
pub mod SessionScreen
pub mod SessionTests
pub mod StyledTerminal
pub mod TerminalTests
pub mod Tests
pub mod ClientTests
pub mod CoordinatorTests
pub mod InboxTests
pub mod PresentationTests
pub mod PairingTests
pub mod Runtime
pub mod App
pub mod AppTests
pub mod PairingScreen
pub mod RuntimeTests
