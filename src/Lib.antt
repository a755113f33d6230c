-- ===== src/Lib.antt =====
-- A model of Lifeline, a static analyser for the lifecycle of goroutines, and theorems about it.
--
-- The program reads a Go package, builds a control-flow graph for each function body
-- (internal/cfg), searches these graphs (internal/model), derives facts and verdicts from them
-- (internal/engine), filters the diagnostics by configuration (internal/config) and comments, and
-- reports them. The files of this development, by the parts of the program:
--
--   Prelude           names of the libraries, tests on numbers and texts, lists, maps from numbers to
--                     truth values.
--   Model.Source      spans, evidence and instructions of internal/model/model.go.
--   Model.Graph       its graphs: BlockID, Edge, BasicBlock, CFG, Block, Reachable, CanReach,
--                     ReachableAvoiding, ReachableAvoidingEdges, IsPersistentSCC. The three searches
--                     share one loop, which a map in the source writes three times: what a round
--                     walks and what it passes over are arguments of `search_loop`.
--   Model.Graph.Tarjan
--                     CFG.SCCs, with the result of a step that may panic. Its children State, Lower,
--                     Visit, Pop, Connect and Components have the proofs; Model.Graph.Cycles those
--                     about IsPersistentSCC and cycles.
--   Model.Dataflow    Solve of internal/model/dataflow.go; `Problem` holds its arguments. Lattice says what
--                     it asks of them, Rounds, Advance, Visits and Solution have the proofs.
--   Model.Facts       the structs that the frontend fills: CancelBinding to Program.
--   Model.Graph.Search, WellFormed, Routes, Dominance
--                     proofs: the loop against walks, well-formed graphs, what each search decides.
--   Cfg.Ast, Cfg.Types, Cfg.Render
--                     the go/ast nodes that internal/cfg/cfg.go reads, what it asks of go/types,
--                     and the labels of edges.
--   Cfg.Builder       the builder's state and primitive operations; Cfg.Builder.Traverse has
--                     findCall, recordDirectCalls and simpleStmt, Cfg.Builder.Wiring the statements
--                     that branch, with the calls on their parts as arguments.
--   Cfg.Build         stmt, stmtList, switchCaseBodies, selectStmt, preAllocateLabels, Build and
--                     BuildContext.
--   Cfg.Invariant     proofs: every operation of the builder keeps its invariant.
--   Config            Config, Default, Duration and Validate of internal/config/config.go;
--                     Config.Validation has the proofs.
--   Config.Values     SplitCSV, stripComment, parseValue, splitArrayElements and asString of that file; the
--                     children Arrays and Csv have the proofs.
--   Config.Decode     its setters and decodeFlat; Lines, Lists and Keys have the proofs.
--   Engine.Verdict    internal/engine/cfg_verdict.go: SummarizeTermination and UnresolvedLoop;
--                     Engine.Verdict.Facts and Loops have the proofs.
--   Engine.Lattices   internal/engine/dataflow_lattices.go; Levels, Stops and Obligations have the proofs.
--   Engine.Diagnostics, Engine.Findings
--                     Diagnostic and base, and the rules of AnalyzeWithStatus, of
--                     internal/engine/engine.go, with the texts of their messages; the children have the
--                     proofs.
--   Engine.Filter     its filter, order and policies; the children Conservation, Hiding,
--                     Order, Unique, Policies and Rules have the proofs.
--   Engine.Status     internal/engine/status.go; Engine.Coverage has Coverage of
--                     internal/engine/engine.go.
--   Engine.Timeout    internal/engine/timeout.go.
--   Model.Effects     ParamEffect of internal/model/model.go with Has and Hands.
--   Frontend.Balance, Frontend.Rounds
--                     the literal accounting of one WaitGroup in internal/frontend/frontend.go:
--                     walkGroupBalance, computeGroupBalances, computeGroupRoundBalances. The children
--                     define what a run of the statements adds and takes off, and prove the reports.
--                     What a statement holds that is not walked is a `Part`. A break or continue
--                     in a run leads to any end that it may have; the source passes over both, over
--                     helpers and over literals called in place, so the reports are proved for
--                     bodies without them. The marks of buildGroupBalanceIndex are `mentions`.
--   Frontend.Paths    callSitesOf, splitDeferred, liveExitReachable, stopProvenAfterWait and
--                     registeredBefore of the same file; the children have the proofs.
--   Frontend.Stops    its computeStopOrdering and describeStopOrder; Frontend.Stops.Order has the proof.
--   Frontend.Ordering the rounds of its computeOrdering; Frontend.Ordering.Joins has the proofs.
--   Frontend.Effects  its paramEffectOf and recordParamEffects.
--   Tests             sample functions, and the theorems at these.
--
-- Conventions. A Go int that counts or numbers things is a natural number; `invalidBlock`, a nil
-- pointer and an absent node are `none` or a constructor of their own. A Go map from block numbers
-- to bool is a function. An index out of range is a panic: a result of its own in the searches and
-- the rules, a flag of the state in the builder. The node of a syntax tree carries a
-- number for its identity, by which positions and types are looked up. A context is a function that
-- says at which poll it reports an error.
--
-- Fuel. The recursion of the builder is on the syntax, so it takes none. A search takes one unit
-- more than there are blocks: each round pops one block, and a block is pushed once, when it is
-- marked. `SCCs` takes a unit for each nested call; each call numbers a block that had no
-- number, so one more than there are blocks is enough. `Solve` takes one for each round:
-- `rounds_bound` is enough for states that rise at most a given number of times.
--
-- Not modelled: the rest of the frontend, which walks the type-checked syntax and fills the facts; what
-- it knows of a statement is written in the statement, or is a parameter. Also the drivers,
-- the report writers, decodeJSON and the search for configuration files. The verbs of the package
-- fmt and time.ParseDuration are parameters.
pub mod Prelude
pub mod Model
pub mod Cfg
pub mod Config
pub mod Engine
pub mod Frontend
pub mod Tests
