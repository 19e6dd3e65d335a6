-- ===== src/Lib.antt =====
-- Wikipedia-RAG: a retrieval-augmented answering service with workspaces, per-resource grants, a
-- hybrid retriever and a gateway to model providers. This library models parts of the Python package
-- `src/wikipediarag` and proves what makes them correct.
--
-- Parts and files (paths from the repository's root):
-- - Common, Common/*: the library's names over the native numbers, Boolean tests, list lemmas, and
--   `strip` of Python's str (Common/Text).
-- - Access, Access/*: src/wikipediarag/workspace_access.py. `resolve_access` decides what a user may do
--   with a knowledge base or a document, `partial_kb_shell` what a listing shows, `normalize_grants`
--   cleans a replacement payload. Access/Rights holds the specification they are measured against.
-- - Grants, Grants/*: src/wikipediarag/workspace_grants.py. A `Database` record holds the tables that the
--   repository reads and writes; each method is a function on it. The order that
--   ORDER BY gives and the uuids are the parameter `Postgres`. The API decides with the functions of
--   Access on what these methods load.
-- - Reliability, Reliability/*: src/wikipediarag/reliability.py (circuit breaker, deadlines, retry
--   policy, safe failures) and, in Reliability/Circuit/Provider, the lines of `proxy` in
--   src/wikipediarag/gateway_app.py that consult a circuit before a provider call and record its
--   outcome after it.
-- - Retrieval, Retrieval/*: the choice of evidence in src/wikipediarag/retrieval.py, after search, fusion
--   and reranking. Retrieval holds the candidates, the scope keys, the caps and
--   `_order_ambiguity_candidates`; Retrieval/Packing and its Passes hold `postprocess_candidates`, one
--   function per stage of a round; Retrieval/Packing/Step restates the passes as steps with guards, from
--   which the invariants follow by induction. `normalize_for_embedding` is src/wikipediarag/embedding.py.
--   Retrieval/Confirm holds `_confirm_current_candidates` with `fetch_current_retrieval_chunks` of
--   src/wikipediarag/repository.py, whose tables are a record. Retrieval/Events holds the events of the
--   cap and the query contexts, Retrieval/Profile holds the ranges that
--   src/wikipediarag/retrieval_profile.py asks of a profile, PostprocessConfig among them. Case folding,
--   isalnum, the digest of `stable_hash` and the count of regex matches are the parameter `Python`; the
--   titles that `extract_explicit_negative_titles` finds are a field of the request.
-- - Json, Json/*: JSON values and dictionaries, in insertion order, with the recursive merge that
--   `_deep_merge` of src/wikipediarag/retrieval_profile.py and `deep_merge_json` of
--   src/wikipediarag/model_control.py share. Json/Paths reads a setting at a path of keys.
-- - Inheritance, Inheritance/*: src/wikipediarag/retrieval_profile.py. `_resolve_profile` follows
--   `based_on`, on fuel; `load_profile_catalog` loads all profiles, and `get_retrieval_profile` merges the
--   overrides of a request. What pydantic then validates is the payload that the model returns.
-- - Search, Search/*: src/wikipediarag/search_service.py. Search/Service holds `run_public_search` as a
--   function of the tables, the grants, the cached value and what retrieval finds; Search/Filters what a
--   request asks of evidence, Search/Cursor the cursors, Search/Groups the document groups and facets,
--   Search/Results the results, the filters of the index and the fingerprint. The confirmations call
--   `fetch_current` of Retrieval/Confirm and `authorized_document_ids` of Grants. JSON text and base64 are
--   the parameter `Codec`, and Python's text and date functions the parameter `Platform`; what these raise is a
--   value, and so is the exception that a cursor may raise. An entry of the cache is one that a search wrote. Search/Pages and
--   Search/Paging follow the cursors of a search.
-- - Worker, Worker/*: the repair of the search index from the tables. Worker/Leases holds the rows of
--   search_projection_reconciliation with their statements in src/wikipediarag/repository.py, each an atomic
--   step at a reading of `now()`; Worker/Repair holds `_repair_search_projection_document` of
--   src/wikipediarag/worker.py over a world that may do anything between its calls, with the events
--   newest first, with or without a guard of the lease, and with the exceptions of the index as values;
--   Worker/Reconcile holds the loop over the documents that a worker has claimed, each repaired in a world
--   of the index and the rows, where other workers run their statements before each of its own.
-- - ModelControl, ModelControl/*: src/wikipediarag/model_control.py: budgets, stage bindings,
--   the request adapter (ModelControl/Adapter), and in ModelControl/Payload the wire body that
--   `compile_provider_payload` makes, and `redact_connection`. A number that a caller may give as negative
--   is ℤ and is refused by the first test.
-- - Contract, Contract/*: src/wikipediarag/retrieval_contract.py. `validate_index_version_contract` checks
--   a row of index_versions against the profile before retrieval runs on it. The registry of models and
--   the digests of hashlib are the parameter `Environment`.
--
-- Numbers: times are whole microseconds on the native ℕ, so that 0.001 seconds is 1000, but whole seconds in
-- Worker/Leases and Worker/Reconcile; durations that a caller may give as negative are ℤ. A monotonic
-- clock is a reading passed to each call. Loops are structural recursion on lists, but for three functions on fuel:
-- `resolve_profile` takes one call for each profile and one more, and the loop of `_cache_window` six tests,
-- which is enough by the theorems on their termination below; `batches` of Worker/Repair takes one unit for
-- each item, and every batch has at least one.
--
-- Not modelled: HTTP, SQL and the search engine beyond the queries named above, sessions and OIDC, model
-- prompts, ingestion, the evaluation suite and the user interface. They are I/O, glue around
-- third-party services, or later work.
pub mod Common
pub mod Access
pub mod Grants
pub mod Reliability
pub mod Retrieval
pub mod Contract
pub mod Inheritance
pub mod Json
pub mod ModelControl
pub mod Search
pub mod Worker
