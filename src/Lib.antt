-- ===== src/Lib.antt =====
-- gobmp: a collector of BMP (RFC 7854). Routers connect to its server and send BMP messages; a
-- parser decodes them, with the BGP messages inside; a producer turns them into JSON for a publisher.
--
-- The parts, in the order in which a byte passes them:
--   Server     pkg/gobmpsrv/gobmpsrv.go: `serve` is the read loop of `bmpWorker`, from a client's
--              stream to framed messages.
--   Parser     pkg/parser/parser.go: `worker` is `parsingWorker`, from a slice to `Message` values.
--   Bmp        pkg/bmp: the common header, the per-peer header, information elements and the
--              Initiation, Statistics Report, Peer Down, Peer Up and Route Monitoring messages.
--   Bgp        pkg/bgp: UPDATE (path attributes, base attributes, AS paths), OPEN (optional
--              parameters, capabilities, add-path), the extended communities and their texts, and the
--              attributes MP_REACH_NLRI and MP_UNREACH_NLRI (MpReach, MpUnreach) with their common
--              interface (MpNlri).
--   Base       pkg/base: TLVs, prefixes (routes), MPLS labels, route distinguishers.
--   Nlri       pkg/unicast and pkg/l3vpn: unicast, labeled unicast and VPN prefixes, with the label
--              stacks.
--   Evpn       pkg/evpn: the five route types of EVPN.
--   Flowspec   pkg/flowspec: flow specification rules, their prefixes and operators.
--   Srv6       pkg/srv6/srv6-l3-service.go: the SRv6 L3 service of a prefix, with its sub TLVs and their
--              sub-sub TLVs.
--   PrefixSid  pkg/prefixsid: the attribute Prefix SID, and its search in an UPDATE.
--   Producer   pkg/message: the negotiation of add-path and the messages for Peer Up and Peer Down
--              (Peer, from peer.go), for statistics (Stats, bmpstats.go) and for routes (Unicast, L3Vpn,
--              Evpn, Flowspec and RouteMonitor, from mp-unicast.go, base-nlri.go, l3-vpn.go, evpn.go,
--              flowspec.go, process-mp-update.go and route-monitor.go), and the worker (Worker,
--              producer.go).
--   Collector  the goroutines behind a client's connection: the parser starts a worker for each message,
--              and the workers send to the producer's queue in any order, until it is closed.
--   Validator  pkg/validator/store.go: the records of a store file.
--   Go         what the program takes from Go: slices with their capacity, big-endian integers,
--              results. A call comes to a value, a non-nil error, a run-time panic or the end of fuel.
--   Prelude    Boolean tests, list functions and bits, shared by all.
-- A function `UnmarshalX` is `unmarshal_x` here, and the body of its loop is `x_turn`. Its encoder,
-- where the source has none, is written out with the round trip that uses it.
--
-- A slice is its length and its memory up to its capacity: `b[i:j]` is checked against the capacity
-- and `b[i]` against the length, as in Go, so a decoder may read past the end of its slice. A w-bit
-- integer is a number with the wrap-around written out. Bytes are numbers, and the bound of 256 is a
-- hypothesis where a theorem needs it.
--
-- Loops run on fuel and come to `spin` without it. A decoder's loop has one more than the bytes of
-- its slice, since each turn moves on. The depth of the retries of `unmarshal_routes` and of the other
-- prefix decoders, the turns of `worker` and the rounds of `serve` are arguments.
--
-- Parameters: the texts of addresses, of numbers and of a time, and the hashes (`Texts`, `Formats`,
-- `Services`), the sorting and the texts of the comparison (`Sorting`), whether the publisher takes a
-- message (`accepts`), and what is published for SR policies and link-state NLRI (`other`, for srpolicy
-- and processNLRI71SubTypes).
-- The source starts a goroutine for each message. Those of the parser share only the queue to the
-- producer: Collector lets them send in any order, and closes the queue at any time. Those of the
-- producer share its fields without a lock: Producer/Worker/Race interleaves their accesses to the
-- speaker's address and hash; the other definitions of Producer are the run of one of them while no
-- other writes.
--
-- Not modelled: channels and connections, logs, the texts of the errors (an error is its cause), the
-- JSON forms, the keys that messages are published under, the messages for SR policies and link-state
-- NLRI, and the decoders of pkg/bgpls, pkg/ls, pkg/sr, pkg/srpolicy, pkg/te and the rest of pkg/srv6.
pub mod Prelude
pub mod Go
pub mod Base
pub mod Nlri
pub mod Evpn
pub mod Flowspec
pub mod Srv6
pub mod PrefixSid
pub mod Bgp
pub mod Bmp
pub mod Parser
pub mod Server
pub mod Producer
pub mod Collector
pub mod Validator
