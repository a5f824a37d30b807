-- ===== src/Lib.antt =====
-- A verification library for Repo Hyperindex, a local index of source repositories in Rust. A daemon
-- watches a repository, assembles snapshots of it, parses the files and answers queries.
--
-- How the parts interact. The watcher leaves out ignored paths and turns the raw events of the
-- others into a debounced stream; the scheduler keeps the daemon's jobs. The git inspector reports
-- the working tree, of which an overlay is built; a base commit, that overlay and the overlays of
-- the editor's buffers are composed to a snapshot, whose files are resolved and compared. The
-- parser maps byte offsets of a file to positions and computes the edit windows for incremental
-- parsing. The planner chooses routes for a query, fuses the candidates that the routes return,
-- groups them and decorates the groups with the trust that their evidence deserves. The impact engine
-- follows a change through the symbol graph, within a budget, and ranks and explains what it meets.
--
-- Which file models what (paths from the repository's root):
--   Errors            crates/hyperindex-core/src/errors.rs: HyperindexError, HyperindexResult
--   Paths             crates/hyperindex-core/src/paths.rs: normalize_repo_relative_path
--   Git               crates/hyperindex-git-state/src/inspect.rs and crates/hyperindex-protocol/src/
--                     repo.rs: the report on a working tree, as data
--   Git.Status        crates/hyperindex-git-state/src/status.rs: parse_porcelain_v1, into_summary
--   Snapshot          crates/hyperindex-protocol/src/snapshot.rs and buffers.rs: the records
--   Snapshot.Overlays crates/hyperindex-snapshot/src/overlays.rs, with digest_snapshot_components of
--                     base.rs
--   Snapshot.Manifest crates/hyperindex-snapshot/src/manifest.rs: compose, resolve_file, diff
--   Snapshot.Assembly the two together, as the daemon calls them
--   Parser.LineIndex  crates/hyperindex-parser/src/line_index.rs
--   Parser.ParseCache crates/hyperindex-parser/src/parse_cache.rs
--   Scheduler         crates/hyperindex-scheduler/src/jobs.rs, queue.rs and status.rs
--   Watcher.Stream    crates/hyperindex-watcher/src/normalize.rs
--   Watcher.Ignore    crates/hyperindex-watcher/src/ignore.rs
--   Watcher.Polling, Watcher.Tree, Watcher.Service
--                     crates/hyperindex-watcher/src/watcher.rs: diff_snapshots; visit_dir; the
--                     polling watcher and watch_once
--   Impact            records of crates/hyperindex-protocol/src/impact.rs and of
--                     crates/hyperindex-impact/src/impact_enrichment.rs and impact_model.rs
--   Impact.Keys, Entities, Steps, Explain, Hits, Traversal, Engine
--                     crates/hyperindex-impact/src/impact_engine.rs: ranks and orders; entities;
--                     expand_node; explanations; candidates and groups; the loop of
--                     analyze_inputs; its response
--   Planner           records of crates/hyperindex-protocol/src/planner.rs and of
--                     crates/hyperindex-planner/src/route_adapters.rs
--   Planner.Fusion    crates/hyperindex-planner/src/score_fusion.rs
--   Planner.Grouping  crates/hyperindex-planner/src/result_grouping.rs
--   Planner.Policy    crates/hyperindex-planner/src/route_policy.rs
--   Planner.Budget    crates/hyperindex-planner/src/common.rs: budget_for_route, and route_registry.rs:
--                     select_budgeted_routes
--   Planner.Trust     crates/hyperindex-planner/src/trust_payloads.rs
--   Base              what they share: lists, orders, stable sorting, ordered maps and sets, text
--   Tests             the definitions and theorems at concrete values
-- A method that changes its object is a function from the old state to the new one and the result; a
-- name in snake case is the Rust name. A child module of a part holds proofs and is named for them.
--
-- State and data. A String is the list of its code points, whose order is the order of the bytes of
-- its UTF-8 form; where bytes count, a file is the list of its bytes. A BTreeMap is a list of entries
-- in ascending order of the keys, with the same insertion and removal. A sort is stable. Results are
-- values: `?` is a bind, and a panic on an index out of range or inside a character is `none`. A u32 that is narrowed and a
-- u64 counter wrap as they do in release builds; lengths of lists are unbounded.
--
-- Bounds and fuel. Decimal digits are written with fuel for twenty, which every number below 2^64
-- has. The loops are recursions on the lists that they walk, but for `suffix_loop`, whose fuel is a
-- file's length, at which its own test stops it, and `wildcard_loop`, whose fuel is the product of the
-- number of times that its star can move and of the rounds between two moves. An exclusive or of 64-bit
-- numbers has fuel for 64 bits, and sixteen hexadecimal digits write a number below 2^64.
--
-- The traversal of the impact engine has fuel for one round more than the edges of its policy and the
-- first frame: a round takes a frame off the queue, and a frame is put there only for an edge.
--
-- The file tree is data, of each entry what std::fs reports; the clock of watch_once is data, two
-- instants for each round; the elapsed time of an analysis is an argument.
--
-- Outside code is a parameter: SHA-256 as a function on text, the file system as a function from an
-- absolute path to contents or an I/O message.
--
-- Not modelled: the git command, the SQLite stores, sockets, the command line, tree-sitter and what
-- walks its trees, floating-point scores and embeddings, the symbol graph and the enrichment that the
-- impact engine takes, the planner's intent router and the calls of its routes.
pub mod Base
pub mod Errors
pub mod Paths
pub mod Git
pub mod Snapshot
pub mod Parser
pub mod Scheduler
pub mod Watcher
pub mod Planner
pub mod Impact
pub mod Tests
