-- ===== src/Lib.antt =====
-- brewery-bitcoin: a Bitcoin indexing node on a peer-to-peer client and a key-value store.
--
-- The program has four packages with logic of their own. db is a store of key-value pairs in
-- column families, with an implementation over the engine Pebble and one in memory for tests.
-- pkg/btcclient keeps connections to a set of peers: each peer has a goroutine that dials, waits
-- for the end of the connection, and dials again; a health check and the discovery of addresses
-- change the set. indexer owns a client, connects it to its configured peers and the network's
-- seeds, and collects the headers that the peers send. pkg/logger adapts the library zap and keeps a
-- default logger. The command cmd joins the packages; two sample programs use the client alone.
--
-- Prelude            numbers, lists, strings as lists of bytes, maps as association lists, results
-- Stdlib             sort.Search, sort.Strings, %d and filepath.Join of the Go library
-- Wire               the messages and hashes of github.com/btcsuite/btcd/wire, a parameter
-- Db                 the package db
--   Base, Contract   db/db.go: the errors, and the promises of Store as a machine over functions
--   Mock             db/mock.go: MockStore, one function per method; Mock/Batch is mockBatch, and
--                    Mock/Iterator is NewIterator and mockIterator
--   Keys             db/pebble.go: cfPrefix, cfUpperBound, prefixedKey
--   Options          db/options.go
--   Engine           the engine github.com/cockroachdb/pebble, a parameter, and the record of laws
--                    that the agreement of the stores relies on
--   Pebble           db/pebble.go: PebbleDB; Pebble/Batch is pebbleBatch, Pebble/Iterator is
--                    pebbleIterator
--   Mock/Refines, Pebble/Refines, Agreement
--                    each store against Contract, and the two against each other
--   Staging, BatchAgreement, Cursor, ScanAgreement, MoveAgreement, SeekAgreement
--                    the batches and the iterators of the two against each other
-- Btcclient          the package pkg/btcclient
--   Base, Config     errors.go and config.go
--   Peer             peer.go: ManagedPeer
--   Manager          manager.go: PeerManager; Manager/Loop is connectionLoop
--   Dial             manager.go: dial; errors.go: PeerConnectionError
--   Handlers         handlers.go
--   Client           client.go: BtcClient; Client/Steps is the client as a transition system
-- Indexer            the package indexer
--   Base, Config     indexer.go: errors, options, validate, ResolveChainParams
--   Peers            indexer.go: resolvePeers and connectPeers
--   Lifecycle        indexer.go: New, Start, Stop, Run
--   Headers          headers.go: OnHeaders
--   Requests         common.go: RequestHeaders and RequestBlock
--   System           an indexer with its client as a transition system
-- Logger             the package pkg/logger
--   Zap              the library go.uber.org/zap, a parameter
--   Options          options.go
--   Constructors     logger.go and zap.go: the loggers and their constructors
--   Global           global.go: the default logger
-- Cmd                cmd/main.go, with the variables of config/config.go
-- Samples            examples
--   HeaderIndexer    headerindexer/main.go: headerIndexer; HeaderIndexer/Program is its main, and
--                    HeaderIndexer/Sync an exchange with a peer that serves a chain
--   RequestPeers     requestpeers/main.go
--
-- How state is modelled. A method takes the state and returns the new state with its result; an
-- error is a value, and nil is `none`. A panic is a constructor or `none` of its own. The map of
-- peers holds pointers, so the peers are objects on a heap and the map holds their identities: an
-- object that has left the map goes on. Where a lock is held from the first to the last line, the
-- method is one step. Where goroutines interleave, the code is cut: connectionLoop into steps
-- between the points where others can run, Stop and Run where they wait. The order in which a
-- map is ranged over is that of the association list.
--
-- Bounds and fuel. Failure counts are int32 and positions of iterators are int, with the largest
-- value written out. A loop of a caller over an iterator runs on fuel, and the theorems give
-- fuel that is enough, one more than the entries. An exchange of headers runs for a number of
-- messages, and the theorems give a number that ends it. The binary search runs on fuel for the
-- length of its range, which at least halves in each round, and the digits of a port, a uint16, on fuel for
-- five. Every other loop is structural.
--
-- Parameters. The engine, zap, the package net with the library peer, the network parameters and the
-- hash of a header are arguments. In the transition system how a dial ends, what a wait is woken by,
-- and when a remote end closes are chosen by the environment.
-- The channel done is read at the points of connectionLoop where the code reads it.
--
-- Not modelled: the log lines of the other packages, the reading of the environment, the handlers of
-- the indexer whose bodies are empty, the test program that prints a client, the byte format of
-- messages, the wait of the samples for an interrupt and what follows it, and time. Of a callback it
-- is kept whether it is set and what it is given.
mod Prelude
pub mod Stdlib
pub mod Wire
pub mod Db
pub mod Btcclient
pub mod Indexer
pub mod Samples
pub mod Logger
pub mod Cmd
