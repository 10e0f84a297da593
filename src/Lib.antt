-- ===== src/Lib.antt =====
-- Verification of the release engine (packages/release) and of the canonical form of API models
-- (packages/api-extractor) of this repository.
--
-- The program publishes one npm package from the commits of the main branch. A push is checked,
-- then a stable release or a numbered canary is recorded as a draft GitHub release that carries its
-- archive, then the archive is uploaded to npm, the upload is confirmed by polling the registry,
-- and the channel's dist-tag is moved. A run can fail or be killed anywhere, and a later run picks
-- the record up again, so each decision is taken from what npm and GitHub show.
--
-- Parts and files. The modules under Release/ stand for files under packages/release/src/:
--   Release/Version          version.ts: the grammar, parsing, printing and order of versions.
--   Release/Intent           intent.ts: commits and release intents.
--   Release/Npm              npm.ts: the packument as the registry that policy reads.
--   Release/Plan             plan.ts: the base of a canary, from the releases that are planned.
--   Release/Supersession     policy.ts: highestStableVersion, publishedCanaryCommits,
--                            canaryHistory, descendantStableSupersedes, canarySupersession.
--   Release/CanaryDecision   policy.ts: nextCanaryVersion, decideCanary.
--   Release/PublicationPlan  policy.ts: distTagFor, npmIdentity, stableTakesLatest,
--                            canaryTakesTag, planPublication.
--   Release/Record           record.ts: tags, bodies, classification of releases and assets.
--   Release/Gate             gate.ts: the stable release line.
--   Release/Catalog          store.ts: classifyCatalogEntry, savedFromRecord, listing.
--   Release/Store            store.ts: find, create, upload, download, complete, reservations.
--   Release/Engine           engine.ts: recordRelease, finishRelease, mainReleaseIntent,
--                            assertCheckedCommit, executeCheckedCommit, executeRetry.
--   Release/Publication      publication.ts: confirmation, upload, promotion.
--   Release/Effects          errors.ts and Effect: effects over a world, with a trace of calls.
--   Release/Samples          data for the tests.
-- The extractor of a package's public API turns the types of its exports into semantic types and
-- brings unions and intersections into a canonical form, so that two runs can be compared. The
-- modules under Extractor/ stand for files under packages/api-extractor/src/:
--   Extractor/Model          model.ts: the semantic types.
--   Extractor/Render         canonical/render.ts: the text of a type.
--   Extractor/Equivalence    canonical/equivalence.ts: the comparison of types, with its context of
--                            type parameters (Bindings), `any` (Wildcard) and keys (Keys).
--   Extractor/Matching       canonical/equivalence.ts: hasCompleteMatching.
--   Extractor/Canonicalize   canonical/canonicalize.ts: flattening, sorting, simplification (Members)
--                            and deduplication (Deduplicate) of members.
--   Extractor/SemanticPaths  parse/semantic-paths.ts: the paths into a model, and where the paths of
--                            props come from.
--   Extractor/Substitutions  parse/substitutions.ts: the bindings of an alias's type parameters.
--   Extractor/Filters        lemmas on filters; Extractor/Samples, types for the tests.
--   Prelude/                 tests on numbers, lists, texts, maps and failures.
-- Function names are those of the source in snake case. Below a component's module stand its
-- lemmas and theorems, by subject, and a module Tests with runs on the data of Release/Samples.
--
-- How the model reads the source. A string is the list of its code units. A bigint is a natural
-- number, since the grammar has no sign. A branded string is a string, and a theorem that needs the
-- brand has the guard's result as a hypothesis. A `Map` is its list of entries, in the order of
-- insertion. Code that throws returns a `Result`, with one constructor of `Failure` for each
-- message. An operation of Effect is a function from a run, which is the outside world and the
-- trace of the calls so far, to a result and a run; what was done before a failure stays done.
--
-- The store and the engine take their ports as arguments, as the source does: the store takes one
-- operation for each request to GitHub with its decoding, and the engine takes the store's
-- operations, git, the gate, the release plan, packing, the archive check and the log.
--
-- A semantic type and its lists of members, properties, parameters and signatures are one family of
-- data types. A node that deduplication compares by object identity carries the identity as a
-- number, and an identity made by `Symbol()` is the number of those made before it.
--
-- Parameters. The ancestry query (git merge-base), the ports of npm, of GitHub and of the clock, the
-- decoders of JSON with their schemas, and Effect.repeat. Where a theorem needs a law of these (what JSON
-- writes it reads back; a schedule of n recurrences repeats n times) the law is a hypothesis, and
-- the module Tests has an instance of it. For the extractor, JSON.stringify,
-- the texts of numbers, and the facts that the TypeScript compiler reports on a handle.
--
-- Bounds. The loop of confirmationRetries has the window in milliseconds as fuel: a positive
-- interval makes each delay at least one millisecond, so the fuel never ends the loop early. The
-- schedule's durations are whole milliseconds. The loop over the pages of releases has a number of
-- pages as fuel; a number above that of the full pages is enough.
-- `augment` has one more than the number of members as fuel: a call marks a right index that was not
-- visited before it calls itself, so this is never used up.
--
-- Not modelled: HTTP, git, tar, hashing and the command line; running Changesets and
-- archive.ts, which are ports of the engine; the wiring of the live ports; the sentences of log messages. Of the extractor,
-- what asks the TypeScript compiler, the schemas of the model as decoders, and the rest of the parser. The
-- other packages.
mod Prelude
pub mod Release
pub mod Extractor
