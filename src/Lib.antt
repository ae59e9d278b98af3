-- ===== src/Lib.antt =====
-- Faultbox runs a system under test in its own environment, injects faults into its syscalls
-- and its packets, explores the non-deterministic choices of a test one leaf of a plan tree
-- at a time, and judges each run by temporal expectations over the event log.
--
-- * PathMatch is internal/pathmatch/pathmatch.go, the path patterns of fault rules: `Match`,
--   `matchHere`, `matchClass`, `HasWildcard` and `MatchAny`, over bytes. `matchHere` recurses
--   on fuel, the length of the pattern: every call is on a shorter one, so this is enough.
--   Relation is the pattern language as an inductive relation.
-- * Netfault is internal/netfault: a packet's view (PacketView), the spelling of TCP flags
--   (Flags), the predicate of a rule (Match), the rule with its counters and its probability
--   gate (Rule), trigger counts (Trigger), `Validate` and `NewRuleSet` (Validate),
--   `RuleSet.decide` (Decide), the two structures of defer.go, the queue of delayed packets
--   (Defer) and the reorder buffer (Reorder), the addresses of alloc.go (Alloc), and the link
--   shapers of shape.go with their use in endpoint.go (Shape, with Link and, for `ParseRate`,
--   Rate). The endpoint asks `decide` for the rule of a packet, and hands packets to delay to
--   the queue and packets to reorder to the buffer.
-- * Engine.Hold is internal/engine/hold.go, the queue of held syscall notifications.
--   Engine.Fault is the text of a syscall fault rule, internal/engine/fault.go:
--   `ParseFaultRule` (Parse) and `String`.
-- * Seccomp.Filter is the program that `buildFilter` of internal/seccomp/filter_linux.go
--   makes, which decides what syscalls the supervisor sees. The kernel's filter machine is a
--   record of what its manual says (Machine), with an interpreter that shows it can hold.
--   Jumps have 8 bits, so the distance to the program's end is taken modulo 256; the named
--   syscalls stay far below that.
-- * Connowner is internal/connowner/tracker.go, which attributes connections to managed
--   processes: the tracker and `IsActive` (Connowner), its calls (Run), the loop over the
--   registrations (Owners), and bindings that lead over bridges to other bindings (Resolve),
--   whose recursion is on fuel: a binding that is on the path of the search is not searched
--   again, so one round more than there are bindings is enough. What /proc says is an
--   argument.
-- * Proxy.SqlMatch is `Canonicalize` of internal/proxy/sqlmatch/sqlmatch.go, by which the
--   database proxies compare a query with the pattern of a rule.
-- * Config.Order is `DependencyOrder` of internal/config/config.go. Its recursion is on fuel,
--   two more than the number of services: every nested visit but the last is of a service
--   that was not being visited.
-- * Lock is internal/lock/lock.go: what a lock file and a run's digests differ in (Compare)
--   and the table that is printed of it (Format).
-- * Plan is internal/plan: the tests of the plan tree (Build, Enumerate and Tree,
--   enumerate.go), against `DiscoverTests` of internal/star/runtime.go (Discovered), and what
--   is covered by faults (Coverage, coverage.go). It asks Star.ChooseAxes for the choose()
--   axes of a test.
-- * Star is internal/star: what a discovery run records and the leaves that pin it (Leaf,
--   from leaf.go, choose.go and interleavings.go), the cross product of the axes (Expand,
--   nondet.go), the orderings of parallel() branches (Interleavings), eventually() and
--   always() (Temporal, temporal.go), and the event log with its indexes, vector clocks and
--   subscribers (EventLog, events.go, and `vcHappensBefore` of trace.go), and the bookkeeping
--   of what a suite has seen succeed (Vacuity, vacuity.go), and the choose() axes that are
--   found without a run (ChooseAxes, chooseaxes.go). A run's recordings are expanded to
--   leaves, and the syscall rules and the packet rules read their pinned outcomes from the
--   leaf. After each event RunTest evaluates every always() and the terminate_when of the
--   test; a registered eventually() is evaluated once, at the end.
--
-- A struct is a record and a method is a function that returns the record anew; a mutex makes
-- a method one step, and a property of all interleavings is one of all lists of calls.
-- `emit` of the event log is its part under the mutex; the copy of the subscribers and the
-- dispatch, which it makes later and without it, are functions of their own. Numbers are
-- natural where the source keeps them so and integers otherwise; counters are not bounded by
-- 64 bits, but the products wrap: the count of leaves in Star.ChooseAxes, the total of
-- Star.Expand and the factorials of Star.Expand and Star.Interleavings, where a panic is
-- `none`. float64 is a type with two constants and comparisons (Base.Float), whose arithmetic
-- is not modelled, or a parameter (Engine.Fault); the seeded generator is the sequence of its
-- draws; a packet's time at a rate is a parameter (Netfault.Shape); Starlark predicates are
-- functions of what they are called on. Maps are association lists (Base.Dict), and a range
-- over a map is a walk over its keys.
--
-- Not modelled: the network stack and the parsing of packets, process launch and the syscalls
-- of the supervisor, the Starlark builtins but for choose(), the wire protocols of proxies and
-- clients, reports and bundles, and the command line, which are I/O or glue around these
-- parts.
pub mod Base
pub mod PathMatch
pub mod Lock
pub mod Plan
pub mod Netfault
pub mod Star
pub mod Config
pub mod Connowner
pub mod Engine
pub mod Proxy
pub mod Seccomp
