-- ===== src/Lib.antt =====
-- A verification library for ntr, a proxy and router: inbounds hand the connections of their protocols
-- to a service, the rule engine chooses an outbound for each, a DNS part answers queries, and Mux.cool
-- carries many streams over one connection. The library has these parts.
--
-- Prelude: Boolean tests, lists over the native numbers, big-endian bytes, Go's maps as association
-- lists (`lookup` is `m[k]` with its `ok`), Go's strings as byte lists.
--
-- Addr (addr/socksaddr.go, and what the code uses of `net/netip`): an address is the number that its
-- bits stand for, with the zone of an IPv6 address. `Socksaddr` is a domain or an address with a port.
--
-- Rule (rule/engine.go): Rule/Types has the rules and the compiled engine; Rule/Match is `matchLeaf`
-- and `compileEval`; Rule/Compile is `Compile` with `putMin`, `dimCount`, `ruleUsesIP` and
-- `validateComposite`; Rule/Route is `RouteConnIPs` and `dimsBest`. Compile puts each predicate of a
-- leaf into an index with the place of its rule, `dimsBest` asks the indexes for the least place, and
-- composite rules are evaluated as closures. Rule/MinOrd, Labels, Best, Leaf, AddRule, Empty and
-- FirstMatch lead to what the indexes together answer; Rule/Resolve is about `HasIPRules`, Rule/Agree
-- compares a leaf inside a composite rule with one at the top. The walk over the suffixes of a host
-- has the length of the host as its fuel: each round passes a dot. A rule's place is a uint32 as in the
-- code, with 2 ^ 32 - 1 as `ordNone`.
--
-- Muxcool (muxcool/frame.go, muxcool/server.go): Muxcool/Frame is the frame codec, Muxcool/Frame/Stream the
-- writes over an `io.Writer`, an interface of its own with the law of a write that returns no error.
-- `write_data_loop` has the length of the payload as its fuel: each round takes a byte at least. A read
-- takes the bytes that are left and gives back the rest. Muxcool/Server is the table of sessions of
-- `ServerWorker`: a step is what one goroutine does between two waits, an event is what it waited for,
-- and `log` has what the worker did to the link and the connections, so that interleavings are lists
-- of events. `finish` is its mark under `smu` and then one step for each piece, the removal from the table
-- first; `landUDP` is `activateUDP` and then one step for each datagram. Events are free to come between
-- these, also where the code makes a goroutine wait: the steps allow all that the code can do, and more.
-- `handleNew`, and `deliverUDP` with its write, are one step each. Muxcool/Server/Alone has `finish`,
-- `closeAll` and `landUDP` from begin to end, with nothing in between. Sessions, Table, Pending and
-- Delivery are about `finish` and the guards of `handleNew`, the table, the queue of datagrams, and its
-- way to the connection.
--
-- Dns (dns/fakeip.go): Dns/FakeIp is the pool of fake addresses, with one function per operation, since a lock
-- is held over each. Evict and Mapping are about the two maps, Answers about what queries get, Range
-- about the ranges of the addresses.
--
-- Buf (buf/buffer.go): a buffer as its bytes with the room in front of and behind them.
--
-- Proto (proto/trojan, proto/vless, proto/socks): Proto/Stream is the stream that a handshake runs on, the
-- bytes that came and the bytes that were written, with `io.ReadFull` and a write that may fail;
-- Proto/Wire has the addresses of `net/netip` as bytes. Proto/Trojan, Proto/Vless and Proto/Socks are the
-- protocols: header codecs, the handshakes of both sides, the frames of UDP packets. The field of a
-- SOCKS4 request has 256 rounds as its bound, which the code has too.
--
-- Meter (meter/limits.go, meter/meter.go): Meter/IpGate and Meter/Gate limit addresses and connections;
-- Meter/Gate/World has the atomic steps of concurrent callers as a step relation, with the number of the
-- caller in each step, of which `try_acquire`
-- is the run of one caller alone. Meter/Cell is what is known of a user, Meter/Traffic what a connection
-- counts, Meter/Registry the table of both, with pointers as numbers in two stores, so that cells share
-- a limit as in the code. The states of the registry that calls lead to are those of `Steps` in
-- Meter/Registry/World, and Meter/Registry/Reload goes on from a limit that is set again; a call of the registry is one step there, and Meter/Cell/Disable interleaves its
-- critical sections. Counters of type int64 are integers without an overflow, which 2 ^ 63 connections
-- would make.
--
-- Outbound/Group (outbound/group): which of its members an outbound group chooses.
--
-- Tests: runs at concrete inputs.
--
-- Parameters: `parse_prefix` is `netip.ParsePrefix`; an IP set, a domain set and a process finder are the
-- functions that they answer with; the writer of the frames; the dispatcher's dials, which are inputs
-- of the step relation of the server; the hash of a Trojan password; what an authenticator knows; whether
-- addons ask for the vision flow; the port that a SOCKS relay socket gets; what probes of a group's members
-- say, and the hash of a target.
--
-- Not modelled: letters and spaces beyond ASCII in domains; buffer pools (a buffer is a fresh list);
-- the once-only lookup of a process, which is a function of the connection here; the bytes that a
-- session's pipe and connection carry; token buckets and sampled rates, which are floating-point numbers and
-- the clock; a group's balancing in turns; the other protocols and outbounds, transports, inbounds,
-- configuration and service, which are input and output, cryptography or calls of third-party code.
pub mod Prelude
pub mod Meter
pub mod Outbound
pub mod Muxcool
pub mod Addr
pub mod Rule
pub mod Dns
pub mod Buf
pub mod Proto
pub mod Tests
