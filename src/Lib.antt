-- ===== src/Lib.antt =====
-- The proof store of persistent-atp: a journal of proposals with a hash chain, leases with fencing
-- tokens, and the commit gate that validates a proposal against committed state before it is
-- journalled. A worker submits a proposal, a list of operations on a graph; the gate runs the
-- validators over it and a read view; if they find nothing, the store appends it in one write
-- transaction, which checks the base revision and the lease; a refused one goes to a rejection log.
-- Around these stand the planner, whose scheduler reads committed state and leases the best move
-- through the store, whose validator looks at search results and whose converters make proposals of
-- results, the projector, which reads the journal into a graph of atoms, and the closure rules of the
-- graph store.
--
-- The files and the code they are about, paths from the repository's root:
-- - Vocab: src/shared/vocab.py, the enumerations and the translations of labels and statuses.
-- - Json: the JSON scalars and trees that cross the program's boundaries.
-- - Gate/Ops, Gate/Proposal, Gate/Reasons: src/commit_gate/ops.py, proposal.py and reasons.py.
-- - Gate/State, Gate/Apply: src/commit_gate/state.py and apply.py. A dict that is only looked up in
--   is a function; an exception is the value none.
-- - Gate/Transitions, Gate/Validate: src/commit_gate/transitions.py and validate.py, a definition for
--   each validator and table; Gate/Soundness holds what a clean proposal has, and joins it in
--   Gate/Soundness/Created to the replay of its ops.
-- - Store: src/commit_gate/store.py and canon.py. The tables are lists in the order of insertion, a
--   method is a function from a store to a result and a store, and a write transaction keeps its
--   block's effects only if the block returns and SQLite grants the commit. Store/Rows has the
--   rows of the lease table, tokens and minted ids; Store/Leases has
--   acquire_lease, issue_lease, dispatch_lease, release_lease and active_leases; Store/Journal has
--   append, record_rejection, read_chain, read_events and verify_chain; Store/Calls runs any
--   sequence of these calls.
-- - Commit: src/commit_gate/gate.py, with commit and _audit.
-- - Decimal: the decimal digits of a number, printed and read, as store.py and ids.py use them.
-- - Mathproof/Ids: src/mathproof/ids.py. The allocator's counters start at natural numbers.
-- - Mathproof/Scheduler: src/mathproof/scheduler.py. Numbers has what it does with floats, a record of
--   operations; Statistics, Scoring, Frontier, Ranking and LeaseNext follow its classes and methods,
--   and lease_next is composed from Store/Leases as the code composes it.
-- - Mathproof/Soundness: src/mathproof/soundness.py, over the parts of a search result that it reads.
-- - Mathproof/Dispatch: src/mathproof/dispatch.py, the results of critics and explorers, and the
--   serials of new ids; Mathproof/Dispatch/Reviewed joins it to Gate/Apply and the scheduler.
-- - Projector: mork/projector/core.py. A command is the atom that it adds; Projector/Refines holds the
--   collected graph against Gate/Apply.
-- - GraphRules: neo4j_adapter/rules.py, the closure of moves and states in at most max_iter rounds,
--   over what its queries see of one proof.
-- - Prelude: shared tests, list lemmas and dicts. Tests: concrete inputs.
--
-- Two things that the program takes from outside are arguments: content_hash, the digest of the
-- canonical text of a JSON tree, the sorting of keys included, of which nothing is assumed but in
-- Store/Journal/Tamper, where the text and SHA-256 are two arguments and the text of an object fixes
-- its members; and what SQLite answers to a transaction and the clock to a
-- reading. Floats, with the builtin sum of them, are an argument too; where order matters, two laws of `<` are named hypotheses,
-- which hold of all floats but NaN. The loops of the code are recursions on lists; the decimal
-- digits of a serial number n run on fuel, n + 1 steps, and a number has no more digits than that; the
-- closure of a graph runs on the code's own bound.
--
-- Times are whole numbers of ticks. A number in a field is a finite one. Not modelled: the prose
-- of a rejection's detail, the opening of the database file, the two readers of the lease events
-- and the rejection log, the canonical text that is hashed, the graph adapter and its other rules,
-- the text of a projected command, and of src/mathproof routing, the work cycle, the conversion of
-- formal results, the context compiler and the adapters of provers. The thread lock of a scheduler
-- makes its own calls follow each other, and calls of two schedulers are calls of the store in
-- some order.
pub mod Prelude
pub mod Vocab
pub mod Json
pub mod Decimal
pub mod Gate
pub mod Store
pub mod Commit
pub mod Mathproof
pub mod Projector
pub mod GraphRules
mod Tests
