-- ===== src/Lib.antt =====
-- k-lite: a small container orchestrator. An API server keeps declared objects in a store, the
-- leader's controllers turn them into instances, bindings and allocations, and each node's agent and
-- Envoy proxy carry them out. This library models the parts that decide.
--
-- The files and the code that they are about:
-- - Common: lists, maps, strings and integers that the others share.
-- - Object: internal/object/object.go and the messages of internal/gen/klitev1. A message is a
--   record, the envelope `Object` a sum; `kind_of`, `meta_of` and `with_meta` are KindOf and MetaOf.
-- - Policy: internal/policy/policy.go. `evaluate` is Evaluate and `compile` Compile.
-- - Net, Xds: the desired network state (internal/gen/klitev1/agent.pb.go) and internal/xds/builder.go.
--   What Envoy does with RBAC filters is a record of laws that its documentation states.
-- - Store: internal/store/store.go and internal/store/storetest/memory.go. The state is `Memory`, and
--   each call is a function of it; `Change` says what one call may do and `Reach` any number of them,
--   which stands for the interleaving with other writers; History is the runs of its calls.
-- - Controller: internal/controller. A reconcile pass is a function of the time and the store. The
--   listings that a pass works on are values, which may be older than the store that it writes to.
--   Scheduler is scheduler.go, with Bound for the instances that the store binds to a node; Workload is workload.go and rollout.go, whose state `Pass` adds the
--   drain deadlines, the random suffixes drawn, and which listed instances `retire` has changed in
--   place, since updateStatus reads the same objects later. `Step` names the branches of advance.
--   NodeHealth is node.go; Vip is vip.go and Ingress is ingress.go (with `selects` of endpoints.go),
--   whose scans for a free number are in Pools. An address is its 32-bit number.
--   Endpoints is endpoints.go: the snapshot that is computed for each node, and its revisions.
-- - Server: internal/server. Cas is the loop of reads and pinned writes that every call shares, with the
--   calls of other writers just before each store access as the argument `others`; a call is its
--   decision on one read. Moments names the states of the store that the loop meets, in the order of
--   its calls and the others', so that a claim on a moment of the call is about one of them. Cluster is server.go and policy.go, Agent and Register are agent.go, Auth is
--   auth.go and Drain is drain.go.
-- - Agent: internal/agent/reconcile.go, over a container runtime that is a parameter, and netconf.go.
-- - Facade: internal/facade/topology.go, the graph composed from the listings.
-- - Netd: Zone is config.go and dns.go, Daemon is server.go, vip.go and probes.go of internal/netd.
--   Netd itself is internal/netd/queries.go, the ring of DNS answers, as a function of the slot with its two
--   indices.
-- - Object/Defaults is internal/object/default.go and Object/Validate is validate.go, whose errors are
--   constructors.
--
-- How the parts interact: controllers and server write through the store with the revision that they
-- read; policies are compiled into the network state, from which the proxies' listeners are built.
--
-- Bounds and fuel: numbers are unbounded, which the program's counts do not reach; an int32 that may
-- be negative is a ℤ. createInstance, the server's loops and healNodeIndex are recursion on
-- their five tries; the scan of freeNodeIndex looks at one number more than there are nodes. Printing a
-- number recurs on the number itself, which has fewer digits.
--
-- Not modelled: input and output (gRPC, HTTP, Docker, netlink, files, clocks, randomness: the last two
-- are arguments), logging, Watch, the etcd implementation of the store, certificates, the command line,
-- the rest of the facade and the front end. The streams of commands, logs and drains are not modelled either, nor the
-- agent's infra pod and its join. Random suffixes and template hashes are parameters, and so are
-- the parsing and printing of addresses. The controllers' wake-ups and tickers are not modelled.
mod Common
pub mod Object
pub mod Policy
pub mod Net
pub mod Xds
pub mod Store
pub mod Controller
pub mod Netd
pub mod Server
pub mod Agent
pub mod Facade
