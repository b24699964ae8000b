-- ===== src/Lib.antt =====
-- The client library packages/peer-client of peer-server: peers that find each other through a
-- signalling server, connect by WebRTC where they can and by relay where they cannot, and share
-- state and files. The development models the classes that carry the client's own logic.
--
-- Hlc: packages/peer-client/src/sync.ts (createHLC, mergeHLC, compareHLC), the hybrid logical clock
--   that orders the writes. Hlc/Order has the order, Hlc/Clock that clocks only go forward.
-- StateSync: the class StateSync of sync.ts, a map of entries that replicas exchange by broadcast
--   and relay. StateSync has the local operations, StateSync/Remote the remote updates by mode,
--   StateSync/Session full states, the listeners, the purge and runs (`step`, `run`).
--   StateSync/Induction carries a predicate through a run; Best states last-writer-wins as a choice
--   of the latest entry, and History the entries that a run made or received.
-- CrdtSync: the class CRDTSync of sync.ts, which keeps a Yjs document in step; the document and what
--   is done with it are a parameter. CrdtSync/Converging says when replicas agree.
-- Transfer: packages/peer-client/src/transfer.ts (and packages/peerserver-client/src/transfer.ts,
--   the same text), the class FileTransfer: Transfer has the chunk format and the state,
--   Transfer/Receive the receiver, Transfer/Loop the sending loop as a step machine (one step from
--   one wait to the next), Transfer/Send the sender's other operations.
-- Transport: packages/peer-client/src/core/transport.ts, the WebSocket with its queue, pings and
--   reconnection; `step` has every call, socket event and timer as an event, also those of a socket
--   that a second `connect` replaced. Flushing and Queue follow the queue, Reconnect counts attempts,
--   Shutdown is about `close`.
-- Client: packages/peer-client/src/core/client.ts, the class PeerClient. Client has the state, the
--   effects and the listeners of waiting requests, Client/Calls the calls and the registration,
--   Client/Peers the map of peers, Client/Messages the server's messages, the transport's events and
--   runs; Counting, Settling, Keeping and Promises count promises, Handing and Roster are about the
--   map of peers and Reconnecting about a transport that opens again.
-- Peer: packages/peer-client/src/core/peer.ts, the class Peer. Peer has the state and the channels,
--   Peer/Jobs the async functions, cut where they wait, and Peer/Steps the events; Flushing and
--   Candidates follow the candidates, Answers and Offers the offers.
-- Room: packages/peer-client/src/room.ts; Room/Direct has DirectRoom, for two, and Room/Group
--   GroupRoom, up to 30 connections and the other members by relay.
-- E2eRoom: packages/peer-client/src/e2e.room.ts, E2EDirectRoom, with the map of keys of crypto.ts.
--   E2eRoom has the state and the exchange of keys, E2eRoom/Steps data, listeners and runs; Counting,
--   Quiet and Sending say what becomes of data, Exchange that an exchange ends; Keys, Sides, Acts and
--   Handshake put two rooms together, whose messages reach each other in order and under any interleaving.
-- Offline: packages/peer-client/src/offline-sync-room.ts and core/offline-store.ts, a room that keeps
--   its entries and its pending operations in the browser's database. Offline has the state, local
--   writes and applyRemoteEntry, Offline/Session what is sent and handled, Durable and Restart that
--   the database mirrors the map, Merging what remote entries do, Flushing how pending operations
--   are sent.
-- Emitter: packages/peer-client/src/core/emitter.ts, from which the classes inherit; Emitter/Once is
--   about listeners put on by once. The other models have what is emitted as an effect.
-- Weights: lists of jobs, weighed. Dict: a JavaScript Map as an association list in the order of
--   insertion. Prelude: lists, strings of UTF-16 code units and integers over the native natural
--   numbers. Tests: the theorems at concrete inputs.
--
-- Conventions. The state of an object is a record, an operation a function from the state to the
-- new state and the list of its effects (events to listeners, messages to other components), in the
-- order of the code's calls. The wall clock, the answers of peers and of the server and the success
-- of a send are arguments. Timers and callbacks are events that may come at any time at which they
-- are pending, so that a statement about all runs is one about all interleavings of them.
-- Timestamps, counters and indices are natural numbers. The loop of the sender is run on fuel: two
-- steps for each chunk that is left, and two to end, are enough, which Transfer/Sender proves.
--
-- Not modelled: WebRTC and WebSocket themselves, IndexedDB, WebCrypto and Yjs, which the classes
-- call; media streams; the rates and percentages for display; the React hooks; the server in Go.
-- The database of the offline room is taken to be open and not to fail, and CRDTSync of sync.ts to
-- be started once. Encryption is a parameter of the offline room; the slices of its full states are
-- cut on fuel, the number of the entries, which is enough for a batch size above 0, since each slice
-- takes one or more.
pub mod Prelude
pub mod Dict
pub mod Emitter
pub mod Weights
pub mod Hlc
pub mod StateSync
pub mod CrdtSync
pub mod Transfer
pub mod Transport
pub mod Room
pub mod Client
pub mod Peer
pub mod E2eRoom
pub mod Offline
pub mod Tests
