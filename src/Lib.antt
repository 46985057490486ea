-- ===== src/Lib.antt =====
-- fipwave: two laptops exchange FIPS packets over sound.
--
-- The browser (apps/modem-ui/src) runs the acoustic session over a modem; the local bridge
-- (packages/bridge/src) carries whole FIPS packets between the browser and the FIPS daemon.
--
-- Fas1: apps/modem-ui/src/acoustic-protocol.ts, the units that the modem carries. A unit is
-- validated (validate_unit), encoded with a CRC-32C (Fas1.Codec, Fas1.Crc), and a FIPS packet is cut
-- into DATA units and put together again (Fas1.Fragment). Fas1.Settings is the profile table and the
-- canonical bytes of the negotiated settings.
--
-- Fwav: packages/bridge/src/protocol.ts, the binary envelope between browser and bridge. validateFrame,
-- encodeFrame and decodeFrame (Fwav.Frame), the PCM payload (Fwav.Pcm), the readiness proof and the
-- admission byte (Fwav.Proof), and the EpochTracker that keeps replayed frames out (Fwav.Epoch), whose
-- calls over time are a relation (Fwav.Epoch.Replay.Reachable).
--
-- Adapter: apps/modem-ui/src/fips-packet-adapter.ts and acoustic-session-adapter.ts, which let FIPS
-- packets pass between the bridge and the acoustic session only while the session is ready. The
-- session enters as its snapshot and its answer; the calls that the adapter makes are events, and
-- Adapter.Armed.Run is a state with the events of all calls before it, and Adapter.Steady.Steady one where
-- the session's epoch changes only by reset of the adapter.
--
-- SoundProof: packages/bridge/src/proof.ts, the join of the FIPS daemon's peers, links and transports
-- with the acoustic and the isolation facts, and the reducer of the public proof state.
--
-- Reconciler: packages/bridge/src/fips-peer-reconciler.ts, which asks the daemon to connect the peer
-- over sound. The control client enters as its answers (FipsControl), and the calls of it are
-- returned; the timer and the attempts over time are a relation (Reconciler.Schedule.Reachable).
--
-- Qualification: packages/bridge/src/qualification-session.ts, the runner's session that tries the Cyrinx
-- codec case by case and falls back to Quiet (Qualification.Runner, Qualification.Cases), its snapshots
-- (Qualification.Snapshot), the committed corpus (Qualification.Corpus), and the browser's copy in
-- apps/modem-ui/src/qualification-session.ts (Qualification.Display). A method is a state transformer
-- with an error; Qualification.States.Runs has the states that calls lead to, with the cases completed
-- on the way.
--
-- Watchdog: apps/modem-ui/src/cyrinx-case-watchdog.ts, the browser's deadline of one case. The calls
-- over time are a relation (Watchdog.Once.Watched).
--
-- Bridge: apps/modem-ui/src/bridge-state.ts, the reducer of what the page shows of its bridge.
--
-- Image: packages/bridge/src/image-transfer.ts. The bands of a picture as datagrams (Image.Band), the
-- loop of send, whose fuel is the number of rows, as each band has one at least (Image.Send), the
-- snapshot of the receiver (Image.Receive), both together (Image.Delivery), and the retry timer of
-- startAuthenticatedImageSender, cut at its awaits (Image.Retry). node:zlib and the answers of the
-- socket are parameters; calls of send do not overlap.
--
-- Session: apps/modem-ui/src/acoustic-session.ts, of which the handshake body (Session.Handshake) and
-- the delivery of packets (Session.Delivery) are modelled. In the delivery a method maps a session to
-- the next one and to the effects on the modem, the timers and the receiver, in order; encodeFas1 is
-- taken to accept the units that are sent, and the end of playback is a call of its own (arm_timeout
-- and arm_recovery, or degrade and restart_session when it fails). Heartbeat, recovery, reset and
-- start stand in Session.Delivery.Recovery, as far as the state of the delivery goes; a start takes
-- the session number and the body of HELLO that its nonce gives. The handlers of the handshake and
-- the calibration enter only as changes of the fields that they may set
-- (Session.Delivery.Bounded.Call). That a timer of an earlier session, epoch or generation does
-- nothing is left out where it would only make fewer runs. TextEncoder and TextDecoder are the
-- browser's and enter as a parameter (TextCoding).
--
-- Parsers of unknown values, processes, sockets, timers, Web Audio and the page are not modelled: a
-- definition starts from the typed value that they pass on.
pub mod Adapter
pub mod Bridge
pub mod Common
pub mod Fas1
pub mod Fwav
pub mod Image
pub mod Qualification
pub mod Reconciler
pub mod Session
pub mod SoundProof
pub mod Watchdog
