-- ===== src/Lib.antt =====
-- Nephos runs virtual private clouds on one host: an API server passes requests to services, which
-- validate them and commit desired state to SQLite with an event; reconcilers apply the desired
-- state to network namespaces and containers and record what they observed. This library models,
-- as pure functions, the services and the store, which decide what is stored and when, and the VPC
-- reconciler, which decides what the kernel is to have.
--
-- Netip, Netip/Text, Netip/Ranges and Netmac model what the code uses of net/netip and
-- net.HardwareAddr: addresses and prefixes as numbers, their text, and blocks of addresses. A text
-- of an IPv6 address is not parsed, and is refused; no caller accepts one.
--
-- Errors is internal/service/errors.go with the errors of SQLite that the code tells apart.
-- Messages are left out, and wrapping an error keeps it. Model is internal/model.
--
-- Store/Tables has the tables of internal/store/migrations with the rows of
-- internal/store/sqlc/models.go. Store/Vpcs, Store/Subnets, Store/Instances and Store/Log have a
-- function for each statement of internal/store/sqlc/queries.sql.go, with the constraints that the
-- migrations declare: primary keys, UNIQUE, CHECK and foreign keys. Store/Tx is WithTx of
-- internal/store/resources.go: a transaction is a function from a database to an error or a value
-- with a database, and an error leaves the database before it, which is what SQLite's ROLLBACK is
-- taken to do. Store/Resources, Store/Leases, Store/Reconcile and Store/Lifecycle are
-- internal/store/resources.go, instances.go, reconcile.go and instance_reconcile.go.
--
-- Service/Validate, Service/Names, Service/Ids, Service/Ipam, Service/Pagination and
-- Service/Idempotency are the files of internal/service with these names (validate.go has the
-- names too). Service/Network has the transactions of network.go, Service/Requests its methods
-- around them with the List of instance.go, and Service/Instances the rest of instance.go. A
-- method returns a Reply: its result, the database and the ID that it gives to the enqueue
-- callback. The time and the random bytes are arguments; SHA-256 and the encoding of JSON are
-- parameters, of which the code relies on one fact, that what Marshal writes Unmarshal reads
-- (Codec). A byte string is a list of numbers.
--
-- Kernel has the names of kernel objects: Kernel/Decimals what the code uses of strconv, and
-- Kernel/Names the names of VPC namespaces and of links of internal/network/netns/netns_linux.go,
-- internal/reconcile/network.go and internal/network/topology/eni_policy_linux.go. Kernel/Gateways
-- is desiredGateways of internal/network/topology/vpc_linux.go.
--
-- Controller is the VPC controller of internal/reconcile. Controller/Queue has the fields that its
-- mutex guards and the functions on them; a Go map is a list of entries in the order in which a
-- range visits it, and where only the first visited key counts, as in pop, a number picks it.
-- Controller/Vpcs has reconcileLocked and the loop of Run that empties the queue, Controller/Sweep
-- the Sweep of network.go. The engine, which works on the kernel, is a parameter: functions on a
-- state of the kernel whose type is arbitrary. What other goroutines commit between the steps of a
-- round is a parameter too (Round).
--
-- Console is internal/tunnel/console/protocol.go, with the decoding of JSON as a parameter.
-- Api/Guard is internal/apiserver/auth.go with New of server.go: a handler is a function of a
-- request and a state. Api/Replies has the checks and the responses that the handlers of
-- internal/apiserver/network.go and instance.go share, Api/Resources has the handlers, which call
-- the operations of Service. Api/Stream is GetEvents of events.go on the databases that its polls
-- see.
--
-- Reach composes the operations to histories: each step is one whole operation, since SQLite runs
-- one writing transaction at a time. Examples has concrete runs.
--
-- Fuel stands in nextPrivateIP's loop, where it is the number of addresses of the block and the
-- loop ends before the last address; in the number of polls that a client of GetEvents stays; in
-- the loop of Run that empties the queue, where one round for each pending ID is enough while
-- nobody enqueues; and in the paging of Sweep, where one page for each row and one more are
-- enough. An int64 is printed with at most 20 digits. Integers of the database are taken to be
-- unbounded: identifiers and generations grow by one per request.
--
-- Not modelled: faults of the disk and cancelled contexts, the opening and migration of the
-- database file, the select of Run with its timers, the instance controller, the work in network
-- namespaces, the hook, containers, the console's connections, the routing of HTTP requests,
-- credentials and the command line.
pub mod Base
pub mod Netip
pub mod Netmac
pub mod Errors
pub mod Model
pub mod Store
pub mod Service
pub mod Reach
pub mod Kernel
pub mod Controller
pub mod Console
pub mod Api
pub mod Examples
