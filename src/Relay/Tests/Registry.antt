-- ===== src/Relay/Tests/Registry.antt =====
-- The registry of desktops on concrete states.
use cucoudle.Relay.State.{RelayState}
use cucoudle.Relay.Desktops.{register_desktop}
use cucoudle.Relay.Tests.{laptop, one_desktop}

abbrev back : RelayState
back = (register_desktop one_desktop laptop 8).0
