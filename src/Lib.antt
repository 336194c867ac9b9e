-- ===== src/Lib.antt =====
-- tsf-go gives a Go service the client side of a service platform: it finds the instances of a
-- service, narrows them to those that a call may go to, picks one, and stops calls to a service that
-- fails. This library models the parts that decide, and leaves out the parts that talk to the network.
--
-- The parts, the files that model them, and how they interact:
--   Base        shared names, texts, numbers in them, maps as association lists, stores of objects
--               (Places), sorting, signed integers, floats
--   Http        pkg/http/client.go: what a request brings back (Do)
--   Hub         what pkg/config/consul/consul.go and naming/consul/discovery.go have in common: topics
--               with watchers. Live states how they are linked; Joins, Subscribes, Parts and Closes keep
--               it over Subscribe and Close, Alike over the steps that change no link; Topics carries a
--               property of each topic, Filled what an event promises, Told what a watcher reads.
--   Config      pkg/config/consul/consul.go: the source as a hub (Source: Subscribe, Watch, Close, Get,
--               and the rounds of subscribe) over fetch (Fetch). Reached is over every order of steps.
--   Metric      pkg/metric: a rolling window of buckets in a ring (Window, Policy), the reductions
--               (Reduce) and the counter (Counter). Rotation, Ring, Roll and Refine compare the ring
--               with the list of its buckets by age; Events, History and Totals with the adds so far.
--   Breaker     breaker/sre_breaker.go and breaker/breaker.go: Allow reads the counter through summary,
--               MarkSuccess and MarkFailed add to it; a Group holds a breaker for each name.
--               Runs is over marks and calls of Allow in any order.
--   Meta        pkg/meta: the metadata that a context carries (WithSys, WithUser, Sys, User)
--   Propagation client.go, server.go, pkg/http/tsf.go: the metadata that travel with a call (startClientContext,
--               startServerContext). Carried is about what the client sends, Delivered about what the
--               server reads, Journey about both.
--   Tag         pkg/sys/tag: rules over that metadata (Tag.Hit, Rule.Hit)
--   Auth        pkg/auth/authenticator: access rules, turned into tag rules (genTagRules, Verify)
--   Naming      naming/service.go: services and instances, and (Kratos) those of the registry;
--               Discovery, naming/consul/discovery.go, as a hub (Watch, GetService, Next, Stop, and the
--               rounds of subscribe, over healthService and compareNodes); Registry,
--               naming/consul/registry.go (Register, Deregister and the heartbeats)
--   Route       route/router (toCommonTagRule, matchByRule, Select, refresh) and route/lane (GetLaneID,
--               Select, refreshLanes, refreshRules, the rounds of the watchers), both over tag rules, and
--               route/composite, which hands the lane's choice to the router
--   Balancer    balancer/hash: the circle of consistent hashing (add, remove, Set, Get, GetTwo,
--               GetN) and Pick; balancer/p2c (P2c: load, prePick, Pick, its callback, PrintStats), over a
--               heap of statistics. Conns is about the map of these, Keeping and Runs about the counts.
--
-- What stands for the surroundings: clocks and random draws are arguments; the regular expressions,
-- strings.ToLower, kratos's Metadata.Set, the hash function, JSON, base64, the exponential and float64
-- (the record Float of Base) are parameters; what the network brings back is an argument (Http.Response,
-- Http.Reply, or the outcome of a request); a watcher's answer to the router, the lanes and the
-- authenticator is a value (Watched), in which a spec is what unmarshalling makes of it. A panic is
-- `none`, and so is a case of a select that is not ready; the choice among ready cases is an argument of
-- the step. Go maps are read by key; where code ranges over one, the order is the list's, or the parameter
-- `arrange` of the router.
--
-- Bounds: ints are natural numbers without an upper bound, except where the code goes below 0 (ℤ); counts
-- of marks stay below 2^53, where float64 is exact; weights of routes, durations and ports are not
-- negative. Loops are structural, except the iterator's, whose fuel is its count and one more, and
-- strconv.Itoa's, a step for each digit; GetTwo and GetN take the number of rounds as an argument, since
-- their loops may go on for ever. Each method is one step, as its locks make it, with these exceptions:
-- Close and Stop cancel before they take the lock, registerIns asks the registry after it has given the
-- lock back, and each of these is two steps; Reached of Config and of Discovery leaves out that two Closes
-- of one watcher both pass the test before one cancels (Config.Tests runs that race); the two reads of
-- Verify are apart, and a goroutine of a hub makes a step at each round. The times that goroutines sleep
-- are left out. Pick and its callback in balancer/p2c are one step each, although their parts are atomic
-- one by one. Products of loads keep the wrap-around of uint64; times are natural numbers of nanoseconds,
-- and differences that would be negative are 0, which is what the code does with them or compares alike.
-- The interleavings of lane.Select with a refresh between its locks are not modelled.
--
-- Not modelled: the rest of the servers, clients and middleware over kratos, gRPC and gin, the typed getters of
-- config, the environment, monitoring, logging and tracing, the random, weighted and older p2c balancers,
-- and the older copies of the router, the lanes and the consul client under pkg.
pub mod Base
pub mod Http
pub mod Hub
pub mod Config
pub mod Metric
pub mod Breaker
pub mod Meta
pub mod Tag
pub mod Auth
pub mod Naming
pub mod Propagation
pub mod Route
pub mod Balancer
