-- ===== src/Lib.antt =====
-- Sentora: a verification library for the parts of the backend that keep evidence, decide verdicts,
-- coordinate workers, let callers in and tell others.
--
-- The parts and how they interact
-- -------------------------------
-- * The audit hash-chain (backend/audit/chain) appends every audited event to the collection `audit_log`,
--   numbered by a counter and linked to the entry before by SHA-256; it is split in epochs. It verifies
--   itself in batches, and exports an epoch as a file that the command `sentora-verify`
--   (tools/sentora_verify) checks without a database.
-- * The distributed lock (backend/utils/distributed_lock.py) and the leader election
--   (backend/utils/leader_election.py) let the workers exclude each other; appends and schedulers use
--   them. The rate limiter (backend/utils/rate_limit.py) guards the routes of one process.
-- * The enforcement engine (backend/domains/enforcement/engine.py) checks rules over the agents, and the
--   compliance engine (backend/domains/compliance/engine.py) the controls of the enabled frameworks; both
--   choose agents by the scope filters of backend/utils/scope.py. The controls are those of nine built-in
--   frameworks (backend/domains/compliance/frameworks), and their check types name executors.
-- * End-of-life matching (backend/domains/eol) maps applications to products of endoflife.date; the
--   executor eol_software reads these matches and the cycles of the products.
-- * Webhooks (backend/domains/webhooks) are called on events, at addresses that the guard against requests
--   to internal hosts (backend/utils/ssrf.py) let pass.
-- * API keys (backend/domains/api_keys) and the sessions, refresh tokens and passwords of users
--   (backend/domains/auth) decide who is let in: the middleware of the keys asks the rate limiter, and the
--   caches of revoked sessions and users for a user's token.
--
-- The files
-- ---------
-- * Prelude passes on library names; Prelude/Tests has the Boolean tests, Prelude/Lists the lists measured
--   by native numbers.
-- * Chain/Entities is backend/audit/chain/entities.py with the state of the two collections (`ChainDb`:
--   the log, the counter, the configuration, the saved verifications and exported epochs). A datetime is a
--   number of microseconds, `details` its JSON text.
-- * Chain/Runtime holds the parameters: SHA-256, `json.dumps`, `strftime` and `strptime`, MongoDB's sort
--   and its storage of datetimes (record `Runtime`), with the documented laws that some theorems use
--   (`MongoLaws`, `ReadsIsoformat`).
-- * Chain/Hasher is hasher.py (`compute_entry_hash`, `compute_export_hash`, `_normalize_timestamp`,
--   `_build_hashable`); Chain/Repository is repository.py, function by function, over `ChainDb`.
-- * Chain/Commands is commands.py: `initialize_chain` and `append_chained_entry`, with the answers of the
--   advisory lock and the fate of each write (stored, failed, or stored without acknowledgement) as an
--   `Environment`.
-- * Chain/Verify, Chain/Reports and Chain/Export are queries.py: the verification of a range, of an epoch
--   and of the whole chain; the reports around it; the export, with the offline verifier
--   tools/sentora_verify/verifier.py.
-- * Chain/Linked says what a well-formed segment of the chain is (`Linked`). Chain/Dense has its lemmas;
--   Chain/Append, Chain/Gapless, Chain/Stuck and Chain/Genesis are about the commands; Chain/Scan,
--   Chain/Ranges, Chain/Accepts, Chain/Sound and Chain/Tamper about the verification; Chain/Offline and
--   Chain/Exported about files.
-- * Lock has the calls of the lock, one function for each call of the database; Lock/Exclusion has the
--   transition system of all the lock's objects. Leader and Leader/Stability are the same for the
--   election, each method without an interruption.
-- * RateLimit is the limiter, RateLimit/Window its specification, a log that forgets nothing, with
--   lemmas in RateLimit/Pruning, and RateLimit/Bound what that bounds.
-- * Scope is the filters with the agents that they choose.
-- * Enforcement/Entities, Enforcement/Violations and Enforcement/Engine are the enforcement domain;
--   Enforcement/Counts and Enforcement/Verdicts are about one rule, Enforcement/Runs about a run, and
--   Enforcement/Trigger is the comparison of a run with the results before it (service.py there).
-- * Compliance/Entities and Compliance/Engine are the compliance domain; Compliance/Sharing is about the
--   queries that controls share, Compliance/Resolution about the controls that a run evaluates.
-- * Compliance/Frameworks with its children Soc2, PciDss, Hipaa, Bsi, Dora, Iso27001, NistCsf, Nis2 and
--   CisV8 is the tables of the frameworks, Frameworks/Registry is registry.py there; Frameworks/Lookup and
--   Frameworks/Controls are about what the registry finds.
-- * Eol/Entities, Eol/Tables, Eol/Cycles, Eol/Names and Eol/Matching are entities.py, matching.py and the
--   reads of repository.py of backend/domains/eol: the types, the curated tables, versions, names, and the
--   run over all applications. Eol/Longest and Eol/Lifecycle are about cycles, Eol/Best about names,
--   Eol/Layers about the match of an application and Eol/Runs about a run.
-- * Ssrf is backend/utils/ssrf.py, Ssrf/Guard says what it lets pass. Webhooks and Webhooks/Delivery are
--   repository.py, service.py, entities.py and dto.py of backend/domains/webhooks, Webhooks/Documents the
--   converters; Webhooks/Steps, Webhooks/Failures and Webhooks/Targets are about deliveries.
-- * Collections is a collection as the list of its documents with the calls that repositories make;
--   Collections/Keyed and Collections/Uniqueness are about a unique key, Collections/Folds about loops of
--   updates. Dicts is a Python dictionary in the order of insertion, as a list of pairs. Documents is a document field by
--   field, as converters read it.
-- * ApiKeys/Entities, ApiKeys/Documents (the converters), ApiKeys/Repository, ApiKeys/Database and
--   ApiKeys/Service, ApiKeys/Limiters and ApiKeys/Middleware are entities.py, repository.py, service.py and
--   middleware.py of backend/domains/api_keys. ApiKeys/Scopes, ApiKeys/Access, ApiKeys/Rotation and
--   ApiKeys/Isolation are about scopes, who is let in, rotation and revocation, and tenants.
-- * Auth/Sessions is session_service.py and session_revocation.py of backend/domains/auth, Auth/Tokens and
--   Auth/Login the refresh tokens and the passwords of service.py there. Auth/Revocation, Auth/Expiry and
--   Auth/Ending are about sessions, Auth/Reuse, Auth/Interleaving and Auth/Survival about tokens,
--   Auth/Lockout about passwords.
-- * Compliance/Checks has what the executors of backend/domains/compliance/checks share, Checks/Agents,
--   Checks/Apps, Checks/Inventory, Checks/EndOfLife, Checks/Coverage, Checks/Recent and Checks/Outdated the
--   eleven executors, Checks/Registry the registry; Checks/Expected says which agents the loops collect, Checks/Failing, without
--   the executors, which fail which check, and
--   Checks/Tally and Checks/Verdicts are about what the executors count, Checks/Fuzzy about the matches
--   that eol_software reads, Checks/Limits about the limit of delta_detection. Compliance/Running puts the
--   engine, the registry and the frameworks together.
-- * The files Tests hold runs on small inputs; Chain/Samples has the inputs of the chain's.
--
-- Bounds and fuel
-- ---------------
-- The loop over batches in `verify_batches` (Chain/Verify, for `_verify_full_chain`) runs on fuel, the last
-- sequence plus two: each round moves the start of the batch by the epoch size, which is positive, so the
-- start passes the last sequence before the fuel is used up. All other loops run over lists; the three
-- attempts at the lock are recursion on their number, and the two writes stand out. Python's integers have no
-- bound, so numbers are ℕ; a subtraction is written only where the source's result is not negative, or
-- with what the source does there. The engine's limit of 10,000 violations is kept as it is.
--
-- What is not modelled
-- --------------------
-- The texts of messages, logging, the routes, the other domains of the backend, and the frontend. Of the
-- authentication, the encoding of JWTs, bcrypt, SHA-256 and what is drawn at random are arguments; the
-- external identity providers are left out. A login is checked without another one between its calls of
-- the database. The queries of one check are taken to see the same agents, and an agent to have one
-- classification result at most. The exception that an executor ends with, from a parameter whose value
-- has no use or from the database, is an argument (`raised` of Checks), as are the comparisons of
-- floating-point numbers. Of the frameworks, the texts that only the user interface shows are left
-- out. The text functions of Python and its regular expressions, name resolution, HTTP, HMAC and the
-- encryption of secrets are arguments. The deliveries of one event run whole, one after the other, and
-- their calls of the database do not fail. The edits of the end-of-life catalogue are left out.
pub mod ApiKeys
pub mod Auth
pub mod Chain
pub mod Collections
pub mod Compliance
pub mod Dicts
pub mod Documents
pub mod Enforcement
pub mod Eol
pub mod Leader
pub mod Lock
pub mod Prelude
pub mod RateLimit
pub mod Scope
pub mod Ssrf
pub mod Webhooks
