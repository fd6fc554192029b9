-- ===== src/Lib.antt =====
-- A verification library for the core of unobin, an infrastructure tool: its addresses of state
-- entries, the scheduler that applies a plan, snapshots of state and the moves of entries in them, the
-- types of the language and the selection of the versions of dependencies.
--
-- How the program's parts interact. A plan is a list of steps, each at an address: a path of
-- segments that may carry the key of a `@for-each` instance. `buildStepGraph` derives edges between
-- the steps from the DAG of the source and from the addresses. `runApplySchedule` then hands the
-- steps to worker goroutines, each step after those that it depends on and under its named lock,
-- and reports how the run ended. What it leaves is a snapshot, whose entries have such addresses;
-- `ApplyEntryMoves` renames them. Before all that, the compiler selects the versions of the
-- dependencies and checks the types of the source.
--
-- Base: what the modules share. Base/Tests has Boolean tests on numbers and strings and the
-- conditional; Base/Lists has lists measured by native numbers; Base/Results has the result type;
-- Base/Maps has maps with string keys as functions;
-- Base/Int has the signed counter of Go's `indegree`. A Go string is a list of its bytes.
--
-- StateRef: pkg/stateref/entry_ref.go, in full.
--   Syntax: `Category`, `StateAddressSegment`, `StateRef`, `String`, `escapeKey`, `validIdent`.
--   Parser: `containsOutsideKey`, `splitSegments`, `parseSegment`, `parseKey`, `ParseStateRef`. A
--     loop over `s[i]` is recursion on the bytes that are left.
--   Operations: `Parse`, `ValidateAddress`, `AppendInstanceKey`, `SplitInstanceKey`, `Template`,
--     `Parent`, `Same`. The panic of an index out of range is the error value `index_panic`.
--   Valid, Escape, Split, Outside, Segments, Joined, KeyText: the lemmas, one file for each function
--     of the parser. RoundTrip, Printed, Keys, Ensures, Panics, Unreadable, Bracket: the properties.
--
-- Apply: the apply scheduler.
--   Graph: `stepGraph` of pkg/runtime/apply_graph.go, as the scheduler reads it.
--   Build/Keys: `keyPath`, `keyPathsAgree` and `pairKeyMatches` of pkg/runtime/apply_graph.go, and
--     `templateAddress` of pkg/runtime/executor.go, by way of StateRef.
--   Build/Plan: `buildStepGraph` with `buildStepGraphWithPairKey` and `addDestroyEdges`. The DAG of
--     pkg/runtime/dag.go and the steps of pkg/runtime/plan.go have the fields that it reads. What
--     `pairKeyDeps` finds in the body of a node is a field of the node.
--   Build/Edges, Counted: the lemmas on its loops. Build/Order, Locks: the properties.
--   Schedule/Queue: the heap `applyReadyQueue` of pkg/runtime/apply_schedule.go.
--   Schedule/State: the variables of `runApplySchedule` as the record `RunState`, and its closures
--     `enqueueReady`, `blockOnLock`, `releaseLock`, `nextReady` and `handleResult`.
--   Schedule/Loop: one round of the loop. What the workers and the runtime decide is a `Choice`: the
--     case that a `select` takes, the answer of a worker, and whether the poll finds `Drain` closed.
--     `Reach` is the set of states at the head of a round, for every sequence of choices.
--   Schedule/Result: what `runApplySchedule` returns.
--   Schedule/Invariant: the invariant of the reachable states, with one file for each closure.
--   Schedule/Bounded: `Rounds`, the reachable states with the number of rounds before them.
--   Schedule/Safety, Completion, Measure, Progress: the properties.
--
-- Snapshot: pkg/sdk/state/snapshot.go. Types, with `cloneSnapshot` of pkg/runtime/executor.go;
--   Validate: `Validate` of a snapshot and of an entry; Valid: what it checks.
--
-- Moves: moves of state entries, pkg/runtime/state_moves.go.
--   Address: `entryMoveHasAddressPrefix`, `rewriteMovedAddress`, `rewriteMovedDependsOn`. The map of
--     moves is a list in any order.
--   Specs: `normalizeEntryMoveSpecs` and `collapseEntryMove`.
--   Target: `entryMoveTargetForRef`, `entryMoveTargetNode`, `validateEntryMoveTarget`.
--   Changes: `entryMoveStateRefs`, `entryMoveChanges`, `checkEntryMoveConflicts`,
--     `validateEntryMoveTargets`. The map from indices to changes is a list in step with the entries,
--     read in their order.
--   Apply: `migrateMovedEntry` and `ApplyEntryMoves`, with `migrateEntry` of pkg/runtime/library.go.
--     The values of inputs and outputs are of any type, and the migrations are those of any library.
--   Longest, Depends, Chains, InStep, Stays: the properties.
--
-- Typecheck: pkg/typecheck.
--   Types: `Type` of type.go, with a constructor for each kind. Equal: `Equal`. Compat: `Assignable`
--     of compat.go. Merge: `MergeShallow` and `joinTypes` of merge.go.
--   Equal/Fixed, Compat/Fixed: the depth of the recursion. Equal/Itself, Equal/Laws, Compat/Null,
--     Compat/Plain, Merge/Order, Merge/Laws: the properties.
--
-- Deps: pkg/deps.
--   Semver: what the code uses of golang.org/x/mod/semver, and the laws that are assumed of it.
--   Dependency, Selection: dependency.go, selection.go and the tags of versions.go. A map with
--     dependencies for keys is a function.
--   Resolve: `Resolve` of resolve.go, with any `Fetch`. A map of requirements is a list, in the order
--     in which `range` goes through it. Enqueue, Closed, Rounds, Required, Ordered: its lemmas and
--     properties.
--   Versions: `Versions`, `Highest` and `ResolveVersion` of versions.go; Highest, Best: the properties.
--   Packages: `ProjectContains` and `MostSpecificProject` of project_package.go, `ReplacementFor` of
--     dependency.go; Contains, Owner, Replaced: the properties.
--   Imports: `ParseImportRef` and `SplitRepoSubdir` of pkg/resolve/imports.go, `ParseDependency` of
--     dependency.go; RoundTrip: the property.
--
-- The loop of `collapseEntryMove` runs on fuel, one round more than there are moves, since a
-- longer path would hold a source twice. `Equal` and `Assignable` run on the size of the first
-- type, counted so that it grows where the code wraps a field's type in `optional`; the lemmas of
-- Equal/Fixed and Compat/Fixed let any function answer the calls beyond the fuel. `Resolve` runs
-- on fuel, one round for each requirement that any project states. Every other loop that is
-- modelled is structural recursion, and the loop of the scheduler is a step relation.
--
-- Not modelled: the return before the loop for a plan with no steps; times and the fields that an
-- event copies from its step; `SkippedCount` of an `ApplyError`; what a worker does for a step
-- (`applyStep`), which is the answer that a `Choice` carries; plans in which two steps have one
-- address; `persistedDependsOn`; panics at nil pointers in a snapshot and in a library; the text
-- of a type and of an error; the lock file of dependencies. The language front end, the inference
-- of types, the compiler, the state backends, the command line and the libraries are outside of
-- this library.
pub mod Base
pub mod StateRef
pub mod Apply
pub mod Snapshot
pub mod Moves
pub mod Typecheck
pub mod Deps
