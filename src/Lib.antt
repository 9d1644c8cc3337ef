-- ===== src/Lib.antt =====
-- The ITT engine: an in-process graph that events grow, with snapshots that do not change.
--
-- An event is checked and given its defaults (Event: types.go, errors.go), queued by its caller,
-- who starts and stops the engine (Lifecycle: engine.go), and taken off the queue by the one worker
-- (Engine: engine.go). The worker copies the current overlay graph with the event added (Immutable:
-- graph/immutable.go, over Graph: graph/graph.go) and publishes the copy as a version (Mvcc:
-- mvcc/version.go), which readers hold by a reference count. When enough events have come, the
-- overlay is merged into the base graph (Compact: compact/compact.go). Readers take snapshots,
-- which see both layers merged (Snapshot: snapshot.go, View: graph/view.go). Versions that no one
-- holds, or that are held too long, are collected (Gc: mvcc/gc.go), and the results cached for them
-- are dropped (Cache: cache/results_cache.go). A graph is saved to and loaded from a storage as
-- plain data (Data: engine.go, types.go). The tension of a node over time is kept in a ring buffer
-- (History: analysis/temporal.go), and the phase of a region is told from its indicators (Phase, of
-- the same file). The settings are checked before an engine is made (Builder: builder.go, itt.go).
-- A ticker of the engine runs the collector and drops the cached results (Engine/Tick: engine.go).
-- An engine is made from its settings and the data that its storage loads (Engine/Start, of the
-- same file).
--
-- The analysis reads a graph by an interface (Analysis: analysis/tension.go). The tension of a node
-- (Tension, of the same file) is a mean of divergences (Divergence: analysis/divergence.go),
-- computed for all nodes by several goroutines (Parallel: analysis/parallel.go). Beside it stand
-- the curvature of edges (Curvature, with its search Bfs and its sort Sort: analysis/curvature.go),
-- the cost of concealment around a node (Concealment: analysis/concealment.go), the threshold of
-- anomalies (Calibrator: analysis/calibrator.go), and whether tensions stand out of their noise
-- (Detectability: analysis/yharim.go, analysis/detectability.go). A snapshot puts them together for
-- a node and for a region, with a cache (Analyze, Analyze/Calls: snapshot.go), and for all nodes
-- (Analyze/Whole, of the same file). For a GPU the edges are laid out as sorted rows
-- (Gpu/Serialize: gpu/serialize.go), on which a kernel computes the tensions (Gpu:
-- gpu/jsd_kernel.go). The changes from one analysis to the next are told by indicators (Indicators:
-- analysis/temporal.go); regions are summed up by a function (Aggregation: aggregation.go).
--
-- Correspondence. A definition has the name of the Go function, in snake_case, and a record the
-- names of the struct's fields. A Go map is an association list (Map), which an iteration goes
-- through in its order; Go leaves that order open, and the theorems hold for every list. A nil map
-- in a write is a panic, the value none. A pointer to a version is its ID, under which a store
-- holds it; a pointer to a node or an edge is its key, but in Heap, where nodes and edges are cells
-- of a heap and a graph holds their indices: it shows that the copy of an event
-- (graph/immutable.go) shares none of them. A mutex or an atomic makes a call one step; readings of
-- the clock are arguments. A callback that a loop takes is a function that passes its captured
-- state along. Strings are lists of bytes. Floats are an abstract type with operations
-- (Prelude/Numeric), of which no theorem uses a law that is not among its hypotheses.
--
-- Bounds and fuel. A machine integer is its bit pattern, a number below 2 ^ 64, with the
-- wrap-around written out (Prelude/Words); what depends on it says so in its hypotheses. A variable
-- that only counts the items of a list is a number without a bound. Times are nanoseconds after the
-- zero time, without a bound. Fuel is used by three loops: that of a forced release
-- (Gc.release_all), by the count of the version, which each round lowers by one; that of the search
-- (Bfs.loop), by one more than the number of nodes, since a node is queued once; and that of the
-- chunks (Parallel.chunks_from), by the number of nodes, since a chunk has one at least. All other
-- loops are structural.
--
-- Not modelled. Of Analyze in snapshot.go, its look into the cache and its temporal summary; of
-- analysis/temporal.go, the velocity; analysis/laplacian.go, a power iteration over floats; in
-- gpu/, the dispatch, which calls a third-party library, and the copies with 32-bit floats;
-- export/, which is output; callbacks.go, which is interfaces and function types. A calibrator is
-- that of analysis/calibrator.go, though the interface lets a user pass another; sort.Float64s, and
-- the functions that a user passes, are parameters. The callbacks of the engine change nothing of
-- the modelled state, nor does the record of tensions that checkAnomalies keeps for them. Of the
-- interleavings with other callers, a compaction in the middle of processEvent is modelled
-- (Engine/Races); else the steps of the worker, of the callers and of the collector follow each
-- other, in any order (Engine/Reach).
pub mod Prelude
pub mod Map
pub mod Graph
pub mod Immutable
pub mod Heap
pub mod View
pub mod Compact
pub mod Mvcc
pub mod Gc
pub mod Cache
pub mod History
pub mod Phase
pub mod Event
pub mod Data
pub mod Lifecycle
pub mod Builder
pub mod Engine
pub mod Snapshot
pub mod Analysis
pub mod Bfs
pub mod Sort
pub mod Parallel
pub mod Divergence
pub mod Tension
pub mod Calibrator
pub mod Detectability
pub mod Aggregation
pub mod Concealment
pub mod Curvature
pub mod Analyze
pub mod Indicators
pub mod Gpu
pub mod Tests
