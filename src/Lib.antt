-- ===== src/Lib.antt =====
-- Lotsman: a VPN gateway that forwards each client through one of several upstream tunnels.
--
-- The daemon (internal/daemon) holds the state: the upstreams with their health, which peers the
-- downstream device has, and which upstream each peer's address is assigned to. Reconcile brings the
-- device and the host's routes in line with the store: it revokes peers that are gone, then admits
-- and routes the others. For each peer it asks policy.Select (internal/policy) for an upstream of
-- the peer's profile (internal/config), by the state that the health tracker (internal/health) has
-- made of the probes, and calls the dataplane (internal/dataplane) to move or block the peer. The
-- dataplane is an interface with two implementations: an in-memory one (internal/dataplane/fake) and
-- Linux policy routing with a firewall set of authorized peers (internal/dataplane/linux).
--
-- The files, each with the code that it models:
--   Prelude       shared names, tests, lists, maps as lists of entries, signed integers
--   Mtu           internal/mtu/mtu.go: client is Client; Mtu/Bounds proves what it returns
--   Health        internal/health/tracker.go: observe is Tracker.Observe; Health/Hysteresis
--   Net           what the code uses of net/netip: an IPv4 address is its number
--   Config        internal/config/config.go: the data, Match.Matches, Profile;
--                 Config/Validate is Validate, Config/Sound what it guarantees
--   Policy        internal/policy/policy.go: select is Select; Policy/Candidates, Order, Choice
--   Dataplane     Dataplane/Interfaces is internal/dataplane/dataplane.go, with what its
--                 comments promise of a peer's forwarding as the record Contract, which also
--                 says that a call for one peer moves no other; Dataplane/Fake is internal/dataplane/fake/fake.go
--   Dataplane/Linux  internal/dataplane/linux/linux.go: Kernel (netlink and nftables, a parameter),
--                 Plane (the struct and its methods' form), Ownership (which rules, routes and
--                 tables are the program's), Routing (Route, Unroute, SetAlive), Cleanup, Lifecycle
--                 (Setup, SetUpstreams, Teardown), Laws (what is relied on of the kernel),
--                 Listing, Remaining, Revocation, Clearing, Scanning, Choosing, Leading and Shapes (proofs)
--   Daemon        internal/daemon/daemon.go: route, unroute, Reconcile; Daemon/Health (counts of
--                 probes, SetAlive), Daemon/Reload, Daemon/Status; Daemon/Invariant, Steps, Routing,
--                 Outcome, Revocation, Admission, Service and Counts hold the proofs
--   Store         internal/store/store.go: the tables, AddPeer and the other changes;
--                 Store/Queries the queries; Store/Address, Allocation and Addressing the proofs
--   Bytes         texts as lists of bytes, and what the code uses of strings and strconv; Bytes/Decimal,
--                 Trim and Cut hold the lemmas
--   Awgconf       internal/awgconf/config.go, params.go, key.go: the data; Awgconf/Values (ranges, keys,
--                 lists, prefixes), Parse (one line, and set of each section), Scan (the loop of Parse),
--                 Accept (the checks at its end), Print (String and UAPI); RoundTrip, with Plain,
--                 Sections, Parameters and Whole, and Sound, with Checks and Loop, hold the proofs, Lines how a
--                 printed line is read
--   Identity      internal/daemon/identity.go: new_identity, the file, and access, one step of a caller
--                 of LoadOrCreateIdentity; Identity/Fresh, Identity/File
--   ClientConfig  internal/daemon/client.go: client_config is ClientConfig
--   Loading       internal/daemon/upstream.go: load_upstream is LoadUpstream; Loading/Usable proves what
--                 it checks, Loading/Refresh is RefreshEndpoint
--   Metrics       internal/metrics/metrics.go: write is Write; Metrics/Quoting, how a value is read back
--   Command       cmd/lotsman/user.go: user_remove is userRemove; Command/Removal proves what it deletes
--   Wire          internal/awgconf/wire.go: check_wire_sizes is CheckWireSizes; Wire/Bounds, Wire/Fuel
-- The files called Tests hold runs and the theorems at concrete inputs.
--
-- How the code is read. A method is a function from its arguments and the state to its results and
-- the new state; a failed call keeps what was done before it. The daemon's lock makes each of its
-- calls one step. A Go map is the list of its entries: a range over it visits them in their order,
-- and the theorems hold for every order. Go's int is a signed integer without bounds, since sizes
-- and thresholds stay far from 2 ^ 63; counters are numbers. A uint16 or uint32 that is computed has its
-- conversion written out. Texts are ASCII and compared byte by byte. The
-- log is not modelled, and an error is its text or where it comes from.
--
-- Outside the repository, and so parameters: the host under the dataplane interface with the laws of
-- the record Contract, the downstream device, the kernel with the record Laws, SQLite's own
-- failures, its choice of row ids, the splitting of addresses and ports, base64, netip's texts, JSON,
-- the random source, curve25519, name resolution, the flag package and the files' contents.
--
-- Bounds: Store.free_from runs on 2 ^ 32 less the first address as its fuel, which is enough as the
-- next address is one more and none past 2 ^ 32 is in a prefix. Wire.tag_sizes runs on the length of
-- the text, and a round drops two of its bytes. Bytes.decimal emits twenty digits at most, enough below
-- 2 ^ 64. No other loop needs fuel: they go over lists.
--
-- Not modelled: the start and stop of the daemon and its loop, the tunnel device, the probes, the
-- daemon's Metrics, the rest of the command line, the store's files and migrations, the firewall's
-- expressions: input and output, or planned.
pub mod Prelude
pub mod Mtu
pub mod Health
pub mod Net
pub mod Config
pub mod Policy
pub mod Dataplane
pub mod Daemon
pub mod Store
pub mod Wire
pub mod Bytes
pub mod Awgconf
pub mod Identity
pub mod ClientConfig
pub mod Loading
pub mod Metrics
pub mod Command
