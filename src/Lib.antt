-- ===== src/Lib.antt =====
-- A verification library for panshou, a search tool for shared links on cloud drives.
--
-- A search asks many sources (web sites and Telegram channels) at once. Each source delivers results
-- with links; the engine filters, ranks and merges them, streams the links that are new or changed,
-- and closes with a summary. A check asks the drives whether links are still valid, and caches the
-- answers. The program keeps a list of the Telegram channels to search and, for sources that need a login,
-- profiles with sealed secrets; and it replaces itself by a release whose checksum and version it has
-- verified. Responses of the network are read within limits. The parts, and the files that model them:
--
--   Prelude, Prelude/*   lists, maps, stable sorting, and the gathering of rows by key that merging,
--                        contexts and checks share
--   Text                 Rust's strings as lists of code points
--   Env                  the crates `url`, `percent-encoding`, `regex` and `sha2`, and the Unicode
--                        part of `to_lowercase`, as a record of functions: every theorem holds for all
--                        of them
--   Core/Cloud           src/core/cloud.rs: CloudType, its names, `from_str`
--   Core/Error           src/core/error.rs: ProviderError and its messages
--   Core/Model           src/core/model.rs: Source, Link, SearchResult, MergedLink and their equality
--   Core/Rank            src/core/rank.rs: the scores and `rank_results`
--   Core/Filter          src/core/filter.rs: `filter_results`
--   Core/Link/Detect     src/core/link.rs: `detect_cloud_type`, its tests as a table
--   Core/Link/Normalize  src/core/link.rs: `normalize_url`, `canonical_url_key`
--   Core/Link/Patterns   src/core/link.rs: its regular expressions
--   Core/Link/Passwords  src/core/link.rs: `extract_password`, `extract_password_for_link`
--   Core/Link/Titles     src/core/link.rs: `associate_work_titles`, `message_title_line`
--   Core/Link/Extract    src/core/link.rs: `extract_links`
--   Core/Merge           src/core/merge.rs: `merge_search_results`, `merge_links`
--   Providers/Context    src/providers/mod.rs: SearchContext and the collector its clones share
--   Providers/Collect    src/providers/mod.rs: `collect_partial`
--   Http/Retry           src/http/retry.rs: RetryPolicy and `retry_with`
--   Http/Body            src/http/body.rs: `read_response` and its limits
--   Http/Stream          src/http/stream.rs: the raw stream, `bounded`, the codings
--   Check/Normalize      src/check/normalize.rs: CheckCloudType and `normalize_share_link`
--   Check/Cache          src/check/cache.rs: CheckCache as a table
--   Check/Item           src/check/engine.rs: items, options, results, `cache_key`
--   Check/Engine         src/check/engine.rs: `CheckEngine::check`
--   Search/Query         src/search/engine.rs: `apply_query_filter`, `source_error`, late results
--   Search/Options       src/search/engine.rs: SearchOptions and the queue of sources
--   Search/Emit          src/search/engine.rs: events, and the loops that emit links
--   Search/Loop          src/search/engine.rs: the loop of `run`
--   Search/Conclude      src/search/engine.rs: the rest of `run`: snapshots, summary, outcome, exit code
--   Channel              src/channel/mod.rs: ChannelList, ChangeSummary, ChannelError
--   Channel/Names        src/channel/mod.rs: `normalize_channel`, `parse_catalog`
--   Channel/Page         src/channel/mod.rs: `classify_channel_page`, ChannelValidator
--   Channel/Store        src/channel/mod.rs: ChannelStore, its file as the state
--   Update               src/update/mod.rs: `UpdateClient::check` and its downloads
--   Update/Checksum      src/update/mod.rs: `verify_checksum`
--   Update/Archive       src/update/mod.rs: `extract_binary`, up to the file that it writes
--   Update/Install       src/update/mod.rs: `install_at`, `replace_binary`, `finish_install` on Linux
--   State                src/state/store.rs and src/state/crypto.rs: the secrets in the JSON of a profile
--   State/Store          src/state/store.rs: StateStore, its files by path
--   Tests, Tests/*       runs, and an instance of each result
--
-- State and operations. A record of Rust is a record here, an enum a data type; a method that mutates
-- returns the new state. The collector that the clones of a SearchContext share is passed along with
-- the context, and the search keeps the collectors of running sources by index, as the program does.
-- A file that the program writes is a value that a call takes and returns: the list of channels, the
-- profiles by path, the installed program with its backups. What the operating system may refuse is a
-- record with an error or none for each step.
-- The table of positions in the merging loops is modelled (Prelude/Keyed), and proved to compute the
-- plain description by keys. Hash maps are association lists; nothing modelled depends on their order.
--
-- Concurrency. What the outside decides is data: a search runs over a list of turns, one for each
-- pass of its loop, with the polls and publications of running sources while it waits and what
-- `select!` returns. A check runs its tasks in any order in which they may finish; a task touches only
-- its own cache key. The jobs of `collect_partial` finish in any order.
--
-- Numbers. Instants, durations and counts are natural numbers, scores integers; a subtraction of the
-- source that saturates is the subtraction that stops at 0, and of the one that would panic (the
-- counts of a summary) it is proved that it never does. `f64` in the delays of retries is a parameter.
--
-- Bounds. The retry loop runs on the number of attempts, at least 1, and never runs out. The
-- replacement of `&amp;` and the trimming of a word take one round for each character. The loop of a
-- search needs one turn more than it has sources. Every read of a decoder that is not the last adds a
-- byte, so a limit of `n` bytes needs `n + 2` reads; the raw stream needs one step for each byte and
-- each arrival, and two more.
--
-- Not modelled: the site scrapers of src/providers/ and the drive protocols of src/check/, which
-- are requests and parsing by third-party crates; src/http/ but for retries, bodies and streams;
-- src/config/, src/migration/, src/output/ and src/cli/; in src/state/, the list of profiles and the
-- parsing of keys; the helper process that ends an update on Windows; elapsed times, logs, and the
-- serialized form of data.
pub mod Prelude
pub mod Text
pub mod Update
pub mod State
pub mod Env
pub mod Core
pub mod Providers
pub mod Http
pub mod Check
pub mod Search
pub mod Channel
pub mod Tests
