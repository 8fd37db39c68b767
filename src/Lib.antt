-- ===== src/Lib.antt =====
-- Cucoudle: a relay between desktops, which run command line agents, and phones, which follow
-- them. The program's TypeScript has three parts: the wire protocol (packages/protocol/src), the
-- relay (apps/relay/src) and the phone's application (apps/mobile/src). A desktop registers at the
-- relay and asks for a pairing code; a phone presents this code, gets a session token and a link
-- to the desktop, and from then on the relay forwards the phone's requests to the desktop, the
-- desktop's answers to the phone that asked, and the desktop's events to all phones linked to it.
--
-- Which file is about which code:
--   Protocol/Message, Envelope    packages/protocol/src/envelope.ts (parseWireMessage, makeError, …)
--   Protocol/Params, Session      the parameters and types of methods.ts and sessions.ts
--   Protocol/Interaction          the interactions of events.ts and the answers of methods.ts
--   Protocol/Json                 JSON values, and the property accesses made on them
--   Relay/State                   the fields of the class RelayState of apps/relay/src/state.ts
--   Relay/Desktops                registerDesktop, getDesktop, removeDesktopBySocket, findDesktopId
--   Relay/Pairings                createPairing, consumePairing, issueMobileSession, resumeMobile
--   Relay/Links                   linkMobile, unlinkMobileBySocket, mobilesForDesktop, findMobileConn
--   Relay/Pending                 addPending, takePending, removePendingForDesktop, the timers
--   Relay/Validity                the invariant of the state, kept by each of these operations
--   Relay/Audit, Output           apps/relay/src/audit.ts, and what handlers.ts sends and logs
--   Relay/DesktopHandler          handleDesktopMessage and onDesktopClose of handlers.ts
--   Relay/MobileHandler           handleMobileMessage, its onTimeout, and onMobileClose
--   Relay/App                     buildApp of app.ts: the events of the host as steps
--   Relay/Routing                 who is sent what, over several handlers
--   Mobile/Terminal               apps/mobile/src/state/terminalBuffer.ts
--   Mobile/Render                 apps/mobile/src/state/renderBuffer.ts
--   Mobile/State                  apps/mobile/src/state/sessionState.ts
--   Mobile/Events, Removal        receiveEvent of apps/mobile/src/state/sessionReducer.ts
--   Mobile/Reducer                sessionReducer and orderReplayEvents of the same file
--   Mobile/Consistency            the invariant of the phone's state
--   Mobile/Client                 apps/mobile/src/protocol/mobileClient.ts
--   Mobile/Coordinator            apps/mobile/src/application/connectionCoordinator.ts: its state
--   Mobile/Coordinator/Sync       synchronize, handleFailure, start, retry, dispose of the same file
--   Mobile/Coordinator/Steps      the host's and the application's calls of it, as inputs
--   Mobile/Runtime                apps/mobile/src/application/createMobileRuntime.ts
--   Mobile/Inbox                  apps/mobile/src/state/inboxSelectors.ts
--   Mobile/Presentation           apps/mobile/src/features/session/terminalPresentation.ts: a line
--   Mobile/Presentation/Rows      the rows of the same file, their cache, and their width
--   Mobile/PlainTerminal          apps/mobile/src/features/session/PlainTerminal.tsx
--   Mobile/StyledTerminal         StyledTerminal.tsx beside it: the styles and the view's state
--   Mobile/Palette                ansiPalette.ts beside it
--   Mobile/Answers                StructuredActionZone.tsx beside it: the controls of an interaction
--   Mobile/Composer               SessionComposer.tsx beside it
--   Mobile/SessionScreen          SessionScreen.tsx beside it, its route, and the list of sessions
--   Mobile/App                    apps/mobile/src/application/AppProvider.tsx
--   Mobile/PairingScreen          PairingScreen.tsx and ManualPairingForm.tsx of features/pairing
--   Mobile/Pairing                apps/mobile/src/pairing/pairingProfile.ts
--   Mobile/Pairing/Repository     pairingRepository.ts and deviceIdentity.ts beside it
--   Prelude                       lists, dictionaries, sorting and JavaScript's string operations
--
-- How the code is read. A method of RelayState is a function that takes the state and returns its
-- result beside the state afterwards; a handler returns the state and the list of its effects on
-- the host (a message sent, a socket closed, an entry of the audit log), in their order. A `Map`, a
-- `Set` or a `Record` is a list in the order of insertion; a socket is a number, its identity. The
-- armed timers of the host are part of the state, with what their callbacks have captured. What a
-- handler reads from its host is the record Host: the readings of the clock in their order,
-- toISOString, randomUUID, the results of randomInt, and the readyState of each socket. JSON.parse
-- and zod's safeParse are the functions of the record Schemas, and nothing is assumed of them.
-- An error message is made before it is sent, so its time is the i-th reading of the clock where i
-- readings came before it in the same call. Audit entries are always kept; a relay whose logger is
-- NOOP_AUDIT_LOGGER drops them.
--
-- The phone's state is read in the same way. A terminal's text is the list of its UTF-16 code units,
-- which `length` counts and `slice` cuts between. What an event brings is a JSON value that nothing
-- has checked; a session is an object whose `id` is a string, which is all that the program looks
-- at before it casts it. A plain object answers the names of properties of Object.prototype, such as
-- "constructor", as if it held them: upsertSession and ansiColor are modelled so, and elsewhere no id
-- is such a name. `sort` is the stable sort of its
-- comparison. The variables that createMobileClient closes over are the record ClientState; a promise
-- and a socket are numbers, their identities, and settling a promise, calling a listener or using a
-- socket is an effect. A listener does not call the client back, and the socket factory makes a new
-- socket at each call.
--
-- The connection coordinator runs as the host runs it: an `await` suspends the rest of a call, with
-- its version, its profile and the place where it waits, and a step of the host settles one promise
-- and runs the call up to its next `await`. Callbacks of the application do not call the coordinator
-- back. The client is seen through what the coordinator calls of it; whether it reports a close
-- before its `close` returns is a parameter. The selectors take Date.parse, on texts that are dates,
-- and the conversion of a value in a template literal as parameters.
--
-- The presentation takes lines of the type StyledLine, as the daemon's schema describes them. A text
-- is the list of its code points, and a line is an object: a number, its identity, which the cache
-- looks up. A key such as "h3" is the index with a constructor.
--
-- The functions of pairing that throw give a failure with the error's text. `new URL`, JSON.parse,
-- JSON.stringify and the schemas are the fields of the record Platform, the secure store those of the
-- record Storage. `safeParse` and the repository's promises add nothing to the functions modelled.
--
-- A component of the user interface is its state, props that change and refs as a record, and what
-- happens to it as inputs: it is rendered, pressed, typed into, scrolled, or a promise is settled. A
-- press of a control is an input that does nothing while the control is not there or is disabled, and a
-- state that is set is rendered before the next input. The application is the state of AppProvider
-- around its runtime; a callback of the runtime is applied as the runtime makes it, and the promises of
-- the secure store are fulfilled at once. toLowerCase is a parameter.
--
-- Bounds and fuel. Numbers are the naturals: times in milliseconds, delays and counts; a negative
-- or fractional number is outside the model. A text's length is the number of its bytes in
-- UTF-8, as Buffer.byteLength counts. The loop of createPairing draws codes until one is free: the
-- model gives no result if all draws given to it are taken; one free draw is enough. The digits of a code are written with one unit of fuel more than the number,
-- which is more than it has digits. The loop of compactCells has one unit of fuel for each cell,
-- of which each turn takes at least one.
--
-- Not modelled: the transport and the HTTP server (fastify), the process's start and its
-- environment, the JSON text of the audit log, the schemas themselves, the elements that React draws
-- and their styles, the camera's lenses and permission, the screens that only lay out what they are
-- given (inbox cards, settings, banners), the desktop daemon (Python), deployment.
pub mod Prelude
pub mod Protocol
pub mod Relay
pub mod Mobile
