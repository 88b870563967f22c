-- ===== src/Lib.antt =====
-- Inbar: models and proofs for the core logic of src/fieldtrue.
--
-- The program keeps evidence, truth, hypotheses, tests, execution and verification under separate
-- authorities, and binds them by content hashes, signed hash chains and fail-closed checks. The
-- modules here follow its files; paths are from the repository's root.
--
-- - Prelude: shared names, lists, exceptions as values, the text patterns of src/fieldtrue/domain.py.
-- - Chain: hash chains in general. Clients: Ledger and Memory.
-- - Domain, Json: times and JSON values, that the other files share. A time has its offset from UTC: the
--   ledger, the memory and the approvals hash a dictionary, whose times canonical JSON writes in UTC, and
--   verify by the model's dump, whose times keep their offset.
-- - Runtime: RuntimeIdentity of src/fieldtrue/runtime.py.
-- - Ledger: src/fieldtrue/receipts.py. Verify and Append are the code; Spec is the specification,
--   Refinement, Trust, Binding and Growth are the proofs. SHA-256 of canonical JSON and Ed25519 are
--   the parameter Primitives; IsSound states their documented behaviour.
--   What becomes of the writes (Writes) is an input; a line that broke off leaves a torn file.
-- - Memory: src/fieldtrue/memory.py. Sensitive, Evidence and Validate are a record's validators, Anchors and
--   Conditions the proofs about them; Verify, Append and Read are the code of the chain and its file; Spec is
--   the specification, Refinement, Growth, Reload and Binding are the proofs. The parameter Primitives
--   stands for SHA-256 of canonical JSON, the length of a line, urlsplit, casefold and the order of
--   floats. What the operating system reports while a file is read (Observations), and what becomes of a
--   write (Ending), are inputs, so every report is covered.
-- - Approvals: src/fieldtrue/approvals.py. Verify is the code, Scope the proofs. The parameter
--   Primitives stands for SHA-256 of canonical JSON, Ed25519 and the order of floats and decimals.
-- - Planning: src/fieldtrue/planning.py, a client of Approvals. Information is the entropy and the
--   posteriors, Select is _eligible and the score of one candidate, Choice is the rest of
--   select_discriminating_test; Safety and Best are the proofs. Python's floats are the parameter
--   Floats; IsOrdered states that they stand in one order.
-- - Sorting: the stable sort and the order of texts. Clients: Planning and Validation.
-- - Validation: the engineering-validation contracts of src/fieldtrue/domain.py, Steps, Observations and
--   the Receipt that holds them. SHA-256 of a plan is a parameter.
-- - Contracts: the evidence, truth and recovery contracts of src/fieldtrue/domain.py, with their
--   validators: Truth for reviews and truth records, Recovery for observations, plans and results.
-- - Rational: the non-negative fractions of Python's `fractions`, with Euclid's algorithm, whose rounds
--   are bounded by the second number and one more. Client: Tree.
-- - Tree: src/fieldtrue/shortcut_v2_tree.py, the depth-two exact Gini learner. Counts, Gini and Decimal
--   are its numbers, Predicates and Enumerate the candidate splits, Validate and Nodes the validators of
--   leaves, nodes and trees, Fit the fitting and Predict the prediction; Order, Best, Route and
--   Digits are the proofs. The parameter Hashes stands for SHA-256 and canonical JSON. The recursion on depth
--   is written out level by level, so it needs no fuel; digits are read with
--   one round a digit and written with one round more than the number, and no round is missing.
-- - Splits: src/fieldtrue/splits.py. UnionFind, Components, Lock and Freeze are the code; Forest, Union and
--   Together are the proofs about components, Separate those about locks. SHA-256 (Digests) and Python's
--   floats (SplitFloats) are parameters. The search of union-find is a recursion on fuel; the rounds
--   given are one more than the unions made, and a way to a root is never longer than these.
-- - Integer: Python's `int` with its floor division. Clients: Tree, Laboratory and Masking.
-- - Laboratory: src/fieldtrue/graded_laboratory.py, the plant and the forward model, with Separability;
--   Exact are the proofs. The parameter Randomness stands for the SHA-256 behind class keys and draws.
--   Both loops are recursions on the steps left, so they need no fuel.
-- - Masking: src/fieldtrue/masking.py, the compensators and the measurement of a cell, a client of
--   Laboratory; Commands are the proofs. Recompute are the summaries and the result recomputed from cells,
--   Counted, Totals and Exact the proofs about these.
-- - Canonical: src/fieldtrue/canonical.py, canonical JSON. Text and Encode are the code: what json.dumps
--   writes with ensure_ascii and sort_keys, and _normalize. Compose, Same and Order are the proofs about
--   the order of iteration, Inverse and Injective those that it is taken back, Surrogates one about texts that
--   are no Unicode. Read is a reader of the compact form, which only the proofs use; its fuel is one for
--   each element, character and level, and Inverse shows that it is enough. Texts are lists of
--   code points. The other components take the SHA-256 of canonical JSON as one function.
--
-- An exception is a value `err e` of Prelude's Result; where a function writes files, the files are
-- an explicit state that comes back beside the result. Files are modelled as the values parsed from
-- them: the JSON text, locking and fsync are not modelled.
--
-- Not modelled: acquisition, handoff, mission, verification, runner_trust, git_trust, experiment, the
-- census and control files, cli, harness and scripts, since what they do is mostly with files,
-- processes, git and a network; of the files above, the reading and writing of files, the
-- collection of a runtime identity, and hashes as such. The other files of
-- src/fieldtrue (active_selection, causal_laboratory, method_campaign, readiness, memory_cycle and the rest of
-- the shortcut files) have logic of their own, and no model here.
pub mod Approvals
pub mod Canonical
pub mod Chain
pub mod Contracts
pub mod Domain
pub mod Integer
pub mod Json
pub mod Laboratory
pub mod Ledger
pub mod Masking
pub mod Memory
pub mod Planning
pub mod Prelude
pub mod Rational
pub mod Runtime
pub mod Sorting
pub mod Splits
pub mod Tree
pub mod Validation
