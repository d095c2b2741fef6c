-- ===== src/Lib.antt =====
-- A verification library for acor (github.com/skyoo2003/acor): Aho-Corasick matching of a dictionary
-- of keywords against texts.
--
-- The program. A dictionary is built into an automaton (internal/engine); a query runs the text
-- through it once and turns the reports into matches (pkg/acor/matches.go), over chunks of the text at
-- once if it is long (pkg/acor/parallel.go). A stored dictionary is changed by planning the new trie
-- snapshot and output lists (pkg/acor/v2_plan.go) and committing them in Redis under a version check
-- (pkg/acor/v2_transaction.go, v2_lua.go), one keyword or a batch (pkg/acor/batch.go) at a time, with several
-- writers at work; a search builds its engine from what is stored (pkg/acor/v2_ops.go). The library
-- models these parts.
--
-- Files and sources.
--   Engine/Outputs        internal/engine/engine_output.go: which keyword a state reports, and the
--                         output chain (outputs, assign, assignID, emitChain).
--   Engine/MapNode        internal/engine/engine_map.go: mapNode with next, addChild and edges.
--   Engine/MapEngine      internal/engine/engine_map.go: buildFromSequence (insert_keywords is its first
--                         loop, link_loop the breadth-first second one) and matchString. Its children
--                         Trie to Keywords are about the insertion, Longest to Automaton about the links,
--                         Chain to Once about the scan.
--   Engine/Bloom          internal/engine/engine_bloom.go: the filter of the runes keywords start with.
--   Engine/MemEfficient   internal/engine/engine_map.go: memEfficientEngine as built, with the filter, and
--                         its queries matchString, find and findIndex.
--   Engine/Stream         matchStream of engine_map.go with emitChain's answer, and FindStreamContext of
--                         pkg/acor/matches.go.
--   Engine/FindSet        findSet of engine_map.go and setCollector of engine_output.go.
--   Matches               pkg/acor/matches.go: cmpLeftmostLongest, leftmostLongest, filterWholeWord, and
--                         what findMatches does with the reports. Its child Presence is
--                         FindSetContext and ContainsContext.
--   Parallel              pkg/acor/parallel.go: findBoundary, isBoundary, splitAutoChunks and
--                         splitChunks.
--   Plan                  pkg/acor/v2_plan.go: planAddMany, planRemoveMany and computeOutputs, the pure half
--                         of a write to a stored dictionary.
--   V2                    pkg/acor/v2_transaction.go and v2_lua.go: a collection in Redis, readTrieSnapshot,
--                         commitV2Write with its script, generateVersion, flushV2Keys, retryOnConflict, and
--                         one attempt of applyManyAtomic (pkg/acor/batch_atomic.go).
--   V2/Writes             applyManyAtomic with its retries, and add and remove of pkg/acor/v2_ops.go.
--   V2/System             several writers as a step relation; V2/Refinement simulates it by V2/Machine,
--                         whose state is one set of keywords.
--   V2/Queries            info, suggest and suggestIndex of pkg/acor/v2_ops.go, and the keywords that
--                         buildEngineFromOutputs of pkg/acor/cache.go collects for its engine.
--   Batch                 pkg/acor/batch.go: screenBatch, partitionApplied, the best-effort and the
--                         transactional loops, rollbackBatch, and their entries in pkg/acor/context_ops.go. The loop
--                         with its rollback runs for a V1 collection only, whose writes all fail as
--                         read-only. Batch/Stored is about a stored collection.
--   Parallel/Find         FindParallelContext and FindManyContext of pkg/acor/context_ops.go, scanChunks and
--                         dedupPreservingOrder of pkg/acor/parallel.go.
--   Parallel/Index        FindIndexParallelContext, with mergeIndexResults of pkg/acor/parallel.go.
--   Rewrite               renderRewrite of pkg/acor/rewrite.go.
--   Scan                  scanOptions of pkg/acor/scan.go.
--   Engine/Coder          internal/engine/coder.go: the alphabet of the flat and double-array engines.
--   Engine/Handle         internal/engine/engine.go and engine_handle.go: the interface of an engine, which
--                         the clients take as a parameter, and the handle around it. Of the engines
--                         only the memory-efficient one is shown to keep what the interface promises;
--                         a theorem about any engine is one about those that keep it.
--   Prelude               lists, membership, prefixes and tests over the native numbers.
--   Examples              runs on small inputs.
--
-- The model. Texts and keywords are sequences of runes, as `range` over a Go string yields them, so two
-- keywords that decode to the same runes are one here. Slices are lists; a Go map from runes is an
-- association list, whose order the code does not depend on. Ids, offsets and runes are natural
-- numbers: all stay below the lengths of the node slice and of the text, which fit Go's int; the
-- arithmetic of the Bloom filter's hash, which does wrap, is taken modulo 2^64.
--
-- Fuel. A walk along failure or output links has the number of nodes as fuel: each hop goes to a shorter
-- label, and a label is shorter than the number of nodes. The queue loop has the number of nodes: each
-- node joins the queue at most once. splitAutoChunks and splitChunks have one round more
-- than the text has runes. retryOnConflict counts its three attempts.
--
-- Redis. A script and a MULTI/EXEC run as one step. A writer is its write, and the collection that it read
-- its snapshot from; other writers and flushes may come in between. The versions that generateVersion and
-- the flush's clock give are taken to be new ones. A call of Redis that fails is left out: it changes
-- nothing, or, where only the reply of the script is lost, leaves what the script leaves.
--
-- Parameters. unicode.IsSpace, the word-rune predicate, and the two floating-point formulas of
-- newBloomFilter (number of bits, number of hashes), of which only a positive number of bits for a
-- positive number of items is assumed; json.Marshal and json.Unmarshal, which read back what was written of
-- valid UTF-8, and keywords are valid UTF-8;
-- the random bytes and the clock; strings.TrimSpace and unicode.ToLower; the storage of a batch, of
-- which nothing is assumed.
--
-- Not modelled: the guard that cancels a build, the other engines with their own `contains`, the engine
-- that a search of a stored collection uses, its memo, find and findIndex there, scanSource, the V1 schema
-- and its migration, caches and invalidation messages, versioned dictionaries, the server and the command line.
pub mod Prelude
pub mod Matches
pub mod Parallel
pub mod Plan
pub mod V2
pub mod Batch
pub mod Scan
pub mod Rewrite
pub mod Engine
mod Examples
