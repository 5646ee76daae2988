-- ===== src/Lib.antt =====
-- Verification of kvm-rs, a software KVM switch: a server captures keyboard and mouse and sends them
-- to paired clients, which inject them; clipboard texts and files travel beside them.
--
-- The parts and the files that model them:
-- - Protocol, Protocol/Framing, Protocol/Proof: common/src/lib.rs. The envelopes and events, the
--   frames with their length and the limit of 10 MiB, and the pairing proof.
-- - RateLimit: `is_rate_limited` and `record_pairing_failure` of server/src/server.rs.
-- - Server/Config: server/src/config.rs, the record, its defaults and the paired devices.
-- - Server/State, Server/Pairing, Server/Messages, Server/Forwarder: server/src/server.rs. `connect`
--   is `handle_client` up to the registration, `run_loop` its loop and end, `on_capture_event` the
--   task that forwards the captured input, and `run` the server over what happens to it: rounds of
--   the loops, connections, captured events, texts of the clipboard, failures at the proxy, and the
--   broadcasts of a task one at a time.
--   Server/Pumps: the two tasks that write to a client and read from it.
-- - Server/Start: `Config::load_or_default` of server/src/config.rs and what `run_server` sets up;
--   Server/Start/Revoked: `--revoke` of server/src/main.rs beside a running server.
-- - Server/Tls: `setup_tls_server` and `get_certificate_fingerprint` of server/src/tls.rs.
-- - Server/Startup: what `main` of server/src/main.rs decides before it calls `run_server`.
-- - Server/Pending: the permits and ids of the accept loops of server/src/server.rs and
--   server/src/file_transfer.rs. Server/Clipboard: `spawn_clipboard_watcher`.
-- - Server/Socks5, Server/Socks5/Negotiation, Server/Socks5/Relay: `Socks5Server::negotiate` and
--   `handle_client` of server/src/socks5.rs.
-- - Keys, Keys/Injected: `key_to_code` of server/src/capture.rs and `code_to_key` of
--   client/src/inject.rs.
-- - Capture/Modifiers, Capture/Types, Capture/Process, Capture/Grab: `process_event` and its callers,
--   of server/src/capture.rs.
-- - Hotkey: server/src/hotkey.rs, whose result is the chord of Capture/Modifiers.
-- - Client/Inject: `InputInjector` of client/src/inject.rs. Client/Addr: client/src/addr.rs.
-- - Client/Config, Client/Hex: client/src/config.rs, and `fingerprint_der` of client/src/tls.rs.
-- - Client/Handshake, Client/Connect, Client/Session, Client/Reconnect: `perform_handshake`,
--   `Session::connect` with `PinnedCertVerifier` of client/src/tls.rs, the loop of `Session::run` and
--   `run_with_reconnect` of client/src/session.rs. Client/Reconnect/Pinned: the configuration and the
--   certificates over its attempts. Client/Handshake/Agreement puts the client's
--   handshake against the server's `connect`.
-- - Client/Sending: `send_file` of client/src/file_transfer.rs. Client/Sending/Arrival puts it against
--   the server's `handle_transfer`.
-- - Client/Discovery: `discover_servers` of client/src/discovery.rs. Client/CommandLine: what `main`
--   of client/src/main.rs decides, and its `--send-file`.
-- - Client/Clipboard: the thread of client/src/clipboard.rs.
-- - FileTransfer/Names, FileTransfer/Receive: server/src/file_transfer.rs. FileTransfer/Concurrent:
--   the ends of several transfers, in the two steps between which other connections run.
-- - Display: common/src/display.rs.
-- - Ui: the state of ui/src/main.rs and the steps of `connect_to_server`, `disconnect_from_server` and
--   the task that runs a session. `World` is that state with the place of every call, and `Step` and
--   `RacyStep` are one access of one call to what they share. Ui/Panel: `send_file_to_server` and what
--   it needs of the session.
-- - EndToEnd/Arrival: the capture, the forwarder, the outbound task, the session and the injector one
--   behind the other. EndToEnd/Identity: the certificate of a server against a client's pinning.
-- - Base: the Boolean tests, lists, texts, words and maps that the parts share. Examples: the
--   theorems at concrete inputs.
--
-- How the program is read. A `u8` to `u64` is a natural number and an `i32` an integer; the wrap of
-- `0x1_0000 + n` in `key_to_code` and the cast of the wheel to 32 bits are written out. A text is the
-- list of its code points. A `HashMap` is an association list, a channel the list of what was sent on
-- it, a mutex or an atomic a field of the state. Clocks, timeouts, the result of each write to a
-- stream, SHA-256, bincode and the operations on `f64` are parameters, in the `Env` of a part or as
-- an argument; so are the case mappings of `str`, what a file reads as and how far a TLS connection
-- gets. The server's handlers are interleaved by whole calls, in the message loop by rounds, where
-- the two broadcasts of an announcement are steps of their own; the calls of the control panel by
-- their single accesses to the generation and the session.
--
-- Fuel: `print_digits` has a bound on the digits, 20 for a `u64`; `first_free` tries one name more
-- than the directory has files, and one of those is free.
--
-- Not modelled: TLS beyond the certificate of the server and the pinning, the announcement by mDNS,
-- logging, the relay of the SOCKS5 proxy and the writing of configuration files, which are calls of
-- other libraries and of the system. The creation of the injector before the loop of a session is
-- left out, and so are the lists of servers and the events that the control panel hands to its front
-- end. The disk of the server does not fail, and no two transfers write one part file at once.
pub mod Base
pub mod Protocol
pub mod RateLimit
pub mod Server
pub mod Keys
pub mod Capture
pub mod Client
pub mod FileTransfer
pub mod Ui
pub mod Hotkey
pub mod Display
pub mod EndToEnd
pub mod Examples
