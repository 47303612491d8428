-- ===== src/Lib.antt =====
-- A verification library for the permuter: a search over variants of a C source for one whose object
-- code matches a target.
--
-- A source may hold PERM macros. src/perm/parse.py parses it to a tree of `Perm` objects,
-- src/perm/perm.py expands the tree at a seed, and src/perm/eval.py chooses the order of the seeds. A
-- candidate is compiled, and src/scorer.py compares its listing with the target's. src/permuter.py
-- decides which results are kept, in the worker processes and in the parent of src/main.py. Over a
-- network the candidates are evaluated elsewhere: a client (src/net/client.py) sends its permuter and
-- seeds by a controller to servers (src/net/server.py), and each server hands them to an evaluator
-- (src/net/evaluator.py) in a sandbox, whose answers go the same way back. src/net/core.py has the
-- messages, and src/helpers.py reads JSON values. The variants are made by src/randomizer.py, whose passes
-- change the C tree of a function with the help of src/ast_util.py.
--
-- Files and what they model:
--   Prelude and its children: shared names, tests, lists, digits of a mixed radix, integers, and the
--     result of code that may raise (`Result`); sums and predicates over lists (Prelude/Folds).
--   Text and its children: `str` as the list of its code points, `b64encode` of UTF-8.
--   Perm/Syntax, Perm/State, Perm/Evaluate, Perm/Shuffle, Perm/Root (src/perm/perm.py): the classes as
--     the constructors of `Perm`, with a number for the identity of a `OncePerm`; `perm_count`,
--     `is_random`, `EvalState`, the `evaluate` methods as a state that is passed on and may end in an
--     exception, `_shuffle`, `preprocess` and `RootPerm`.
--   Perm/Seeds (src/perm/eval.py): the draws of `random.randrange` are a list and `random.shuffle` is a
--     parameter, of which it is assumed that it keeps how often each number occurs.
--   Perm/Radix, Perm/Lineswap, Perm/Safety, Perm/Once, Perm/Choices, Perm/AstIds, Perm/SeedOrder prove.
--   Parse/Monad, Parse/Split, Parse/Macro, Parse/Integer, Parse/Grammar (src/perm/parse.py): the scanners
--     as loops over the text, the search for a macro written out as a matcher, the factories and the
--     recursive parser. The number of the next `OncePerm` object is passed on.
--   Parse/Nesting, Parse/Search, Parse/Rules, Parse/Sizes, Parse/Total, Parse/Roots and Parse/Numbers
--     prove.
--   Scorer/Lines, Scorer/Score (src/scorer.py): the comparison of two lines, the counters and the score.
--     The opcodes of `difflib`, the listing, the digest and the search of a stack offset are parameters;
--     `Covers` says of the opcodes what the documentation of `get_opcodes` says.
--   Scorer/Tally, Scorer/Zero, Scorer/Match prove.
--   Permuter/Results (src/permuter.py): `should_output`, `record_result`, `_need_to_send_source`.
--   Permuter/Pool (src/main.py): `post_score` and a worker's round, for one permuter; `run_pool` takes
--     the results of the workers in the order in which they come, `run_single` is the reference in which
--     no source is dropped. What a worker evaluates is part of the run.
--   Permuter/Cache (src/permuter.py): the part of `_eval_candidate` from the source of a candidate to its
--     score, with the compiler, the scorer and the digest as parameters.
--   Permuter/Cycle (src/main.py): `cycle_seeds` over lists of seeds, with a unit of fuel for each seed and
--     for the end of each iterator, which are the rounds that the loop takes, and a proof.
--   Permuter/Record, Permuter/Liberal, Permuter/Output, Permuter/Runs, Permuter/Sources, Permuter/Best,
--     Permuter/Fresh and Permuter/Memory prove.
--   Net/Json (src/helpers.py): the values of `json` and their typed access. Net/Permuters, Net/Wire,
--     Net/Port (src/net/core.py): `PermuterData` in JSON, what a port gives to the code above it, and the
--     frames of `Port`. `Wire` is a record of the libraries' conversions, and `Box` one of the encryption,
--     each with the laws that are documented: what is encoded is decoded to the same. In the other files
--     a port is the list of the messages that are still to come, and what is sent is a list too.
--   Net/Evaluator/Ports, Net/Evaluator/Pool (src/net/evaluator.py): the messages, and `main` with the
--     processes of `multiprocess_worker`. A schedule is a list of choices of the process that makes the
--     next step; the task queue may mix the reader's tasks and the workers' results in each way. The
--     outcome of `_create_permuter` is a parameter. A result's contents have no part in the schedule.
--   Net/Server/Types, Net/Server/Ports, Net/Server/Handle, Net/Server/Controller (src/net/server.py): the
--     messages of the queues, `_send_permuter` and `_do_read_eval_loop`, `_handle_message` and
--     `_main_loop`, and `NetThread`. The times of the clock are arguments.
--   Net/Client (src/net/client.py): a `Connection`. Its tasks are a list, and a run waits where the list
--     is at its end. The loop takes a unit of fuel for each message and one more.
--   Net/Posts, Net/Exchange, Net/Relay, Net/Results, the children of Net/Client and of Net/Port, and the
--     other children of Net/Evaluator and Net/Server prove. The controller (src/net/controller), which is
--     written in Rust, is not modelled: what it makes of a message of the client or of a server is a
--     hypothesis. `IsAdd` lets it put the members of a permuter in any order, and `IsUpdate` lets it drop
--     `overhead_us` and reorder the profile, as its serialization does.
--   Tree/Nodes, Tree/Index, Tree/Equal, Tree/Blocks (src/ast_util.py): pycparser's trees, whose nodes have
--     a class, the members that are no children, and the children in the order of `children()`. Where a
--     child or a list of children may be absent, a member says whether it is there. A node carries a mark
--     besides, such as its indices, which then stand for the node as an object; a node that a pass makes
--     has the indices 0. `compute_node_indices`, `equal_ast`, the blocks and `normalize_ast`.
--     Tree/Inside collects and changes nodes.
--     Tree/Meaning: the meaning of a tree, made of those of its children by a function that is a parameter.
--   Randomizer/Locations, Randomizer/Region, Randomizer/Operators, Randomizer/Compound, Randomizer/Replace,
--     Randomizer/Comma (src/randomizer.py): where variables are read and written, regions, `visit_replace`
--     and four passes. What `random` draws is an argument, such as the index that `choice` picks. A
--     callback of `visit_replace` takes and gives a state in place of what its closure changes.
--   Randomizer/Chains, Randomizer/Monotone, Randomizer/Pragmas, Randomizer/Meaning, Randomizer/Inequality,
--     Tree/Nesting, Tree/Same, Tree/Places and Tree/Normal prove; Tree/Braces is a
--     predicate, over a table of its own of where C has statements in statements.
--   Examples: runs, and the theorems at concrete inputs.
--
-- Fuel: the parser takes a unit for a round of its loop and for a nested call. `perm_parse` gives it one
-- for each character and one more, since each round takes a character or is the last. `normalize_ast` takes
-- a unit for each block inside another; it has one for each node of the body and one more, since a nested
-- block, with the braces that it may be given, has fewer nodes than the block around it.
--
-- Not modelled: what is printed or written to files; a score threshold below 0; characters other than
-- ASCII digits in the built-in `int` and in the `\d` of src/scorer.py; Python's limits on recursion; a
-- port that is closed while something is sent; the parser and the printer of C, which are pycparser's;
-- `Alignas` nodes; the parameter `cmp` of `equal_ast`; the other passes; heartbeats, threads' starts and
-- stops, sockets and containers. The other parts of the program are listed in the manifest with the
-- reasons.
pub mod Prelude
pub mod Text
pub mod Perm
pub mod Parse
pub mod Scorer
pub mod Permuter
pub mod Net
mod Examples
pub mod Tree
pub mod Randomizer
