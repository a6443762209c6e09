-- ===== src/Lib.antt =====
-- Neuron: a knowledge graph built from connectors (Jira, Notion, GitHub, Bitbucket).
--
-- A connector job (connectors/core/jobs.py) fetches records of a provider. The ledger
-- (connectors/core/ledger.py) decides for each record what changed, keeps its versions and the
-- chunks of its text, and queues the chunks for extraction by a language model.
--
-- Files:
-- Prelude: shared names, lists over the native numbers, SQL tables as lists of rows.
-- Jobs: ConnectorJobStore. Each method takes the table and the time of its call and gives the
--   table that it leaves; Jobs/Progress has the methods as steps of a transition system, so
--   that any order of calls by any workers is a sequence of steps.
-- Records: resolve_action (connectors/core/actions.py) and the tables source_records,
--   record_versions and record_edges of ConnectorLedger.
-- Chunks: the table source_chunks of ConnectorLedger; the ChunkDiff of a new version.
-- Reviews: the review half of connectors/core/ledger.py: reviews, the cache of rejected
--   identities, candidate links, and what a decision on a review leaves in each.
-- TimeAxis: graph/semantics/time_axis.py, fact_predicates.py and freshness.py: when a fact holds in
--   the world, when the graph held it to be true, and when it is stale.
-- Axioms: AxiomSet of graph/semantics/axioms.py: which triples an extraction may assert.
-- Adoption: the tables of the vocabulary in the ledger: seeding, adoption of shapes, undoing;
--   Adoption/Graph is the undoing that also deletes edges (graph/semantics/adoption.py).
-- Misses: the log of refused terms in the ledger, with what a person has dismissed.
-- Inference: graph/semantics/inference.py: the edges derived by transitive, symmetric, inverse and
--   sub-property axioms. Inference/Sound and Inference/Complete compare transitive_closure with walks
--   through the asserted edges.
-- Facts: the fact edges of graph/storage/writer.py, which the connectors' extraction fills. Each
--   write is a Cypher query and so one step. Facts/Exec follows a run through the graph after each
--   step, Facts/Writer and Facts/Confirming are about a write of one fact, Facts/Sync about the
--   writes of all facts of a subject.
-- TextFacts: graph/resolution/resolve_text_fact.py, which decides for a fact read from text whether
--   it closes, corrects or confirms the one in the graph and writes through Facts.
-- Chars: texts as lists of code points, with str.strip, str.join and regular expressions by derivatives.
-- Chunking: connectors/core/chunking: semantic.py and tokens.py in Chunking, router.py in
--   Chunking/Router. A counter of tokens is an interface, IsCounter, and the regex counter of
--   tokens.py implements it.
-- Sql: storage/sql_backend.py: translate, split_script and PgCursor. Sql/Reading describes how SQLite
--   itself finds the parameters of a statement.
-- OAuth: connectors/core/oauth_store.py: states, connections and sessions in OAuth, sources, sync runs
--   and delete_connection in OAuth/Syncs; OAuth/Active has the histories of sync runs as steps.
-- Retrieval: graph/retrieval: text_window.py in Retrieval/Windows, access.py in Retrieval/Access and
--   expand.py in Retrieval/Expand, whose query asks Access which source records a caller may read.
-- Duplicates: graph/resolution/duplicate_collector.py: the signals in Duplicates, the pairs in
--   Duplicates/Candidates, the merge of an approved review in Duplicates/Merge, which reads the
--   queue of Reviews and writes through Facts.
--
-- Conventions: a method runs in one transaction, so it is one step. Times are numbers of
-- microseconds; the ISO texts that the code stores are of one form and compare as the times do.
-- Confidences are in thousandths. SQL leaves open the order of rows that tie, where the model takes
-- the earlier one first. Hashes, uuid5, json.dumps and identifiers drawn at random are arguments.
-- The fuel of Inference's levels is the bound max_depth of the code's own loop: max_depth - 1 turns are
-- all that the code makes, so nothing is cut off. The fuel of Retrieval/Windows is the number of
-- tokens; each window starts later than the one before, so it is enough, as the theorem on the
-- windows shows. Similarities are exact fractions where the code has floats.
--
-- Not modelled: HTTP clients, the connection pools and drivers of SQLite, Postgres and FalkorDB,
-- embeddings and calls of language models, the code parser, the ingestion pipelines, chat and
-- ranking, the Postgres store of findings, the front end, and the scripts.
pub mod Prelude
pub mod Adoption
pub mod Axioms
pub mod Chars
pub mod Chunking
pub mod Chunks
pub mod Duplicates
pub mod Facts
pub mod Inference
pub mod Jobs
pub mod Misses
pub mod OAuth
pub mod Records
pub mod Retrieval
pub mod Reviews
pub mod Sql
pub mod TextFacts
pub mod TimeAxis
