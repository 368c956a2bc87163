-- ===== src/Lib.antt =====
-- Zhenyi, a Go framework of message-passing actors with a network gate: a model of its core.
--
-- A client's packet reaches the gate (zgate), which makes a message of it (zmsg) and routes it:
-- to its own handlers, to an actor of the process by the group's route table (zactor), or over a
-- bus to an actor of another process, which a strategy chooses among those that discovery has
-- seen (zroute). An actor has a mailbox, which one goroutine empties in batches. Actors call
-- each other over numbered slots that match replies to the calls that wait for them, behind a
-- circuit breaker for each target. A message is shared by counting references. Discovery
-- (zdiscovery) keeps a cache of the actors that are registered in etcd, and tells the group of
-- its changes. Games ask a grid which entities are near (zaoi); metrics are exposed as text
-- (zmetrics).
--
-- Msg: zmsg/msg.go, msg_ext.go and msgpool.go.
--   Msg/Bytes is little-endian numbers, Msg/Envelope the message with `Size`, `MarshalTo`,
--   `Marshal`, `MarshalPooled`, `Unmarshal` and the resets, Msg/Encode the wire layout, Msg/Decode
--   and Msg/Accept what decoding gives and which buffers it takes, Msg/Refs `GetMessage`, `Retain`
--   and `Release`. A slice is its bytes with a capacity; a panic is a result.
-- Actor: zactor/circuitbreaker.go, group.go, router.go, handlemsg.go, flow.go, hotupdate.go, base.go,
-- handler.go, dispatcher.go, helper.go and watchdog.go.
--   Actor/Breaker and Actor/Breaker/History are the circuit breaker and its histories of calls;
--   Actor/Routes is `RegisterRoutes`, the lookups and `RouteLocal`; Actor/Discovery is `watchActor`
--   and the versioned snapshot of the other processes' routes, and Actor/Cache what lookups see;
--   Actor/Restart is `superviseActor`;
--   Actor/Async is the asynchronous tasks and the two worker pools (in base.go and hotupdate.go) that
--   run them, and Actor/Balance follows a task from its submission to its callback.
--   Actor/Commands is what an actor does with a command (handlemsg.go, handler.go, dispatcher.go and the
--   ticks of base.go); Actor/Mailbox is `Push`, `Group.tick` and the loop of `Run`, over a queue that is
--   a parameter with its laws, with Actor/Mailbox/Order, Drain and Ticks about it; Actor/Send is the sends
--   of helper.go, with Settled, Posts and Calls about what becomes of their messages; Actor/Group
--   is the group's actors, with Sorted, Pick and Rollback about their start, their choice and failures;
--   Actor/Watchdog is watchdog.go, with Spacing about its reports.
-- Rpc: zactor/sender.go.
--   Rpc/Slots is the slot pool with `AddSender`, `SetReply` and the watchdog; Rpc/Reply is
--   `GetReply`, where what other goroutines do before each wake is a list of functions; Rpc/Claim,
--   Rpc/Alloc, Rpc/Call, Rpc/Versions and Rpc/Late are about allocation, about a call from start to
--   end, and about replies that come too late.
-- Route: zroute/remote_strategy.go.
--   Route/Strategy is the three strategies; Route/Winner and Route/Rotation are about rendezvous
--   hashing and round robin.
-- Gate: zgate/gate.go, session.go and rtt_tracker.go.
--   Gate/Remote is `routeToRemoteActor` from the candidates on, with the bus as a parameter;
--   Gate/Attempts and Gate/Fallback are about its order and its outcome; Gate/Server is the gate with
--   `OnAccept`, `OnRead`, `gateHandler` and `sendClient`, and Gate/Routed and Gate/Destination are about
--   where a message goes; Gate/Session is the session manager; Gate/Tracker and Gate/Samples are the
--   tracker of round-trip times.
-- Etcd: zdiscovery/etcd.go.
--   Etcd/Cache is the cache and the choices, Etcd/Keys the keys as bytes, Etcd/Events the watched events,
--   Etcd/Registry the registrations and the shared lease with the accesses of its recreation one by one,
--   Etcd/Search the searches by a key; the client of etcd and JSON stand as their answers. Etcd/Once and Etcd/Latest are about the cache, Etcd/View joins it
--   with the group's `watchActor`, Etcd/Backed is about what etcd holds, Etcd/Decimal and Etcd/Agree are
--   about keys, and Etcd/Choice about `FindPoll`.
-- Aoi: zaoi/staticaoi.go, grid.go and iface.go.
--   Aoi/Space is the world and its cells, with a float64 as a parameter; Aoi/Static the entities and every
--   operation of `StaticAoi` but the statistics; Aoi/Cells is about the nine cells, Aoi/Placed and Aoi/Moves
--   about where entities are, Aoi/Nearby about searches. A cell's linked list is a list, head first.
-- Metrics: zmetrics/metrics.go.
--   Metrics/Histogram is the histogram and Metrics/Cumulative its snapshots; Metrics/Number is `formatInt`
--   and Metrics/Printed its text.
-- Script: zscript/stats.go.
--   Script/Stats is `RecordCall` of goroutines that interleave, Script/Extremes what becomes of the longest
--   and the shortest duration.
-- Model: zmodel/actor.go, the actor's configuration.
-- Prelude: shared names, tests on numbers, lists, maps, masks and shifts, results. The files called
--   Tests hold concrete runs.
--
-- Numbers: an unsigned number of w bits is a natural number below 2^w, with its wrap-around
-- written as a remainder; an int32 or int64 is its bit pattern, and its order is written out
-- where the code compares it. Times are numbers that the caller passes.
--
-- Bounds: the loop of `AddSender` runs for as many rounds as the pool has slots, and the loop over
-- candidates for as many as there are candidates, as in the code. Versions of slots are taken to be
-- below 2^48 - 1, where they fit the id; the versions of the route snapshot below 2^64.
--
-- The loop of `Run` has fuel, and one round more than there are commands is enough. A decimal
-- text has more rounds than its number. The channel of discovery has room for 100 notices, as in
-- the code.
--
-- Not modelled: goroutine interleavings inside `AddSender`, `SetReply`, the tracker's calls and
-- a histogram's, whose atomic accesses are taken in a row; callers of `FindPoolActorByType` that
-- interleave, whose reads, sort and `Add` are taken as one step; interleavings inside etcd's
-- `Register`, `Unregister` and `CloseAll`, and two lease recreations at a time; lifecycle tracing and logs;
-- `Broadcast`, `CallActorAll` and `Init` of an actor, the set-up and TLS of the gate, and the
-- goroutines that retry etcd's watch and keepalive, which only call what other packages or other
-- operations give; the metric registry and its text; script engines and contexts,
-- codecs, NATS, HTTP, configuration and monitoring.
pub mod Prelude
pub mod Model
pub mod Msg
pub mod Actor
pub mod Route
pub mod Rpc
pub mod Script
pub mod Gate
pub mod Aoi
pub mod Etcd
pub mod Metrics
