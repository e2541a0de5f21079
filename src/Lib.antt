-- ===== src/Lib.antt =====
-- fec: forward error correction for a stream of bytes over UDP.
--
-- The program cuts a stream into chunks, codes each chunk with Reed-Solomon into `total` packets of
-- which any `parts` are enough, spreads the packets of several chunks, and puts the stream together
-- again on the other side, whatever packets are lost or come out of order. Two clients that each
-- have such an encoder and a decoder exchange their datagrams through a relay.
--
-- The parts of the program, and where they are modelled:
--   Buffer         src/buffer/ring.go. `Ring.read` and `Ring.write` are `Read` and `Write`, one step
--                  each, as both hold the mutex; `Queue` is the bounded queue that a ring stands for.
--   Codec/Packet   src/codec/packet_v2.go: `new_packet_v2`, `marshal`, `unmarshal`.
--   Codec/PacketV3 src/codec/packet_v3.go: the same layout under version 3.
--   Codec/Chunk    src/codec/chunk.go: `new_chunk`, `marshal` and `unmarshal`, with their loops over
--                  the shards.
--   Codec/ReedSolomon
--                  what the program uses of github.com/klauspost/reedsolomon: a record of functions
--                  that is a parameter, and the documented behaviour of the package as `IsCode`.
--   Codec/Encoder  src/codec/encoder.go: the goroutines `aggregate`, `encode` and `dispatch`; `Run` is
--                  the three of them, one behind the other.
--   Codec/Decoder  src/codec/decoder.go: the goroutines `decode`, `assembly` (`assemble`), `restore`
--                  and `dispatch`; `Run` is the four of them, one behind the other.
--   Codec/Recovery the encoder and the decoder together: one chunk (`Wire`, `Restored`, `Delivered`), a
--                  stream of chunks (`Stream`), chunks that the encoder interleaves (`Spread`), bytes
--                  through all goroutines of both (`Bytes`), and datagrams from anywhere (`Safety`).
--   Relay          cmd/server/main.go: the relay, its table of two peers (`set_route`, `route`) and the
--                  loop `serve`.
--   Traversal      src/traversal/server.go: `serve` and its handlers, over the ring; `Registry` is what
--                  the server promises, `Members` how the two are related.
--   Secure         src/secure: `write` and `read` of blocks that are encrypted, with the cipher as a
--                  parameter and its documented behaviour as `IsGcm`.
--   Io             what a stream below a reader or a writer answers to a call.
--   Unit           src/unit: `read` and `write` of blocks of a fixed size over a stream, whose answers
--                  (`Io`) are a list; a call for which there is no answer left is pending.
--   Observer       src/observer: the reader and the writer that count what goes through them, `call`, and
--                  the goroutine that reports, one round of which is `report`.
--   Client         src/client.go: the constructor `new_client` with the checks of the encoder's and the
--                  decoder's, `connect`, `run`, and the four goroutines of `routeIn` and `routeOut`, one
--                  turn of which is a step of `Routes`; `Pair` is two clients that talk to each other.
--   Cmd            the programs: cmd/client/main.go, its keys (`Keys`), the file of its settings
--                  (`Settings`), the reader and writer it gives to the client (`Handler`) and `main`
--                  (`Main`); and cmd/stats/main.go, which sends and notes numbered frames (`Stats`).
--   System         two clients and the relay: what the encoder of one sends, the decoder of the other gets.
--   Tests          concrete inputs: a code of two data shards and their sum, packets, chunks, rings.
--   Prelude        names of the libraries, slices of bytes as lists, Go's uint64 and places in a ring.
--
-- How they interact: a goroutine is modelled as a handler of one message, from its state to the
-- messages it sends and the new state; the channel between two goroutines is the list of what the
-- first sends. Goroutines that share a state are steps on it, in any sequence. `none` stands for a
-- panic, or a constructor `panics`. Sums and products of uint64 are written out modulo 2 ^ 64.
--
-- Bounds and fuel: the loop of the aggregator takes at least a byte in each round, so as many rounds
-- as there are bytes are enough; the other loops run over a list (of shards, of packets, of texts that
-- were entered) or a number of rounds that the code computes beforehand. Counters are assumed to stay
-- below 2 ^ 64 where a theorem says so. `make` panics for more than 2 ^ 48 bytes, as it does on a
-- 64-bit machine; that the machine has as much memory is taken for granted.
--
-- Not modelled: channels that block, the context that ends a goroutine, timers (a tick is a message),
-- log lines, the text of a report, flags, the screen, and how sockets are made. SHA-1, the
-- Reed-Solomon code, the cipher, the exchange of keys, hexadecimal and TOML texts and the parser of
-- ids are parameters. The program that tries the parts out over a lossy line (cmd/debug) and the
-- drawing of the histogram (histo.go) are not modelled, as they print and draw only.
pub mod Prelude
pub mod Buffer
pub mod Codec
pub mod Relay
pub mod Traversal
pub mod Io
pub mod Observer
pub mod Secure
pub mod Unit
pub mod Client
pub mod Cmd
pub mod System
pub mod Tests
