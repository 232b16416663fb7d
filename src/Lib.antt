-- ===== src/Lib.antt =====
-- A model of wireguardd, the daemon that keeps WireGuard interfaces and peers in a desired state, and
-- of the SNMP agent through which it shows them.
--
-- A cycle of the reconciler reads the rows of interfaces and peers, suspends the peers whose quota or
-- time is used up, asks the backend for the devices, peers, routes, limits and names of every
-- interface, writes their configuration to files, samples the counters into the store and the cache,
-- installs the port maps that AWG interfaces share with plain ones, and removes what has no row any
-- more. The SNMP agent answers requests on the leaves that are built from the cache.
--
-- Base          lists, bytes, strings, int64 patterns and maps, with their lemmas.
-- Db            internal/db: the rows (models.go), and in Db/Tables the statements that a cycle runs
--               (ListInterfaces, ListPeersByInterface, ListAllPeers, SetPeerSuspended, AddEvent,
--               UpdatePeerStats, InsertSamples, PurgeSamples, PurgeEvents) on lists of rows.
-- Policy        internal/policy/policy.go: EffectiveBytes, TrafficLimitExceeded, IsExpired,
--               ShouldAutoSuspendAt, AutoSuspendReason, EffectiveBandwidth.
-- Host          internal/wgbackend: the types of backend.go, and the methods of Backend that change
--               the host as the constructors of Call; Host/Names has NormalizeBackend and
--               NormalizeProtocol, Host/Mux has ValidateMuxMaps, Host/Dns has ParseDNSList, Host/Mock
--               has the backend in memory, Host/Resolve has resolve.go, Host/Routes has the routes and
--               rules of table_routes.go and in Host/Routes/Sync their sync, Host/Blackholes has
--               routes.go, Host/Limits has tc_limits.go: rates and class numbers, in
--               Host/Limits/Tc the commands for a peer, in Host/Limits/Sync its sync; Nft and Table
--               there have nft_limits.go, and Bandwidth the methods that choose between them. All are
--               over a Runner of Host/Net. Host/Amnezia has the rest of amnezia.go,
--               Host/Mux/Ruleset that of mux.go.
-- Netutil       internal/netutil/ip.go: the checks of addresses, CollectUsedHosts, AllocateNextHost.
-- Conf          internal/confparse: the sections and Render (render.go); Conf/Parse has the pieces of
--               parse.go, Conf/Parse/Loop the loop of Parse; Conf/Reading says what the loop does on a
--               printed piece.
-- Stats         internal/stats: AccumulateLifetime, WindowDelta, Cache.
-- Reconcile     internal/reconcile: Desired turns rows into what is asked of the host, Export has
--               exportConf, Sampling has sampleInterface, Twins has muxMaps, Apply has the body of
--               the loop of run, Cycle has run. Reserved has internal/netutil/reserved.go.
-- Snmp          internal/snmp: Oid has oid.go, Ber has ber.go, Pdu has pdu.go, Mib has the lookups of
--               mib.go, Agent has HandlePacket and what it calls from agent.go.
-- Tests         concrete runs.
--
-- A Go string is the list of its bytes, with the white space of Unicode in UTF-8 and the letter
-- case of ASCII, an int, an int64 or a duration is a two's complement pattern below 2 ^ 64, an
-- instant is a number of nanoseconds and 0 is the zero time, a map is an association list whose
-- order stands for the order of a range. State is passed explicitly: World is the reconciler with
-- the tables, the host and the calls made to it so far. The backend is a record of operations over
-- a state of the host, each of which may fail; Host/Mock is one. The clock, the statements that the
-- database refuses, and what is used of the packages time, encoding/json, strconv, path/filepath,
-- net and os are parameters.
--
-- Loops are structural recursion. Three run on fuel: the loop over the bindings of a PDU, whose fuel
-- is the length of the datagram, since every binding takes a byte or more; the printing of a number,
-- whose twenty digits hold every uint64; and the scan of an IPv4 network, whose 2 ^ 32 turns are more
-- than it has hosts.
--
-- Not modelled: float rates, averages and windows; the mutexes, the ticker and the thinning of samples;
-- the messages of logs and errors; the UDP socket and BuildMIB; the
-- backend that runs programs on the host, but for its routes and limits; DefaultNoisePreset;
-- adoption, the HTTP API and its client, the terminal interface and the commands, metrics, webhooks,
-- updates and key generation; the schema and upkeep of SQLite.
pub mod Base
pub mod Snmp
pub mod Db
pub mod Policy
pub mod Host
pub mod Netutil
pub mod Conf
pub mod Stats
pub mod Reconcile
mod Tests
