-- ===== src/Lib.antt =====
-- Codetrail: the logic of its shared Go packages, gateway, indexer and evaluation metrics.
--
-- Codetrail indexes Go repositories and answers questions about them with citations. A gateway puts
-- a job on a queue, an indexer leases it, cuts each file into chunks and stores them as spans; a
-- question is answered from ranked spans, or by a model that calls tools in a bounded loop, and the
-- citations of its text pass a gate. The evaluation runner measures the retrieval.
--
-- Files and sources:
--   Prelude   Boolean tests, lists by native index, Go's `int`, bytes, UTF-8, sorting, results.
--   Models    packages/shared/models/models.go: Repo, Span, Symbol and the kinds of a span.
--   Chunk     packages/shared/chunk: Defs is chunk.go (Options, Validate, retrievable) and window.go
--             (splitLines, windows); Ast is ast.go (Decl, firstName, recvBase, astChunks) and Chunks.
--             `chunks` is Chunks, and `cut` its work once the options are valid. Tiling is about
--             windows, Exact about Chunks. Strip is strip.go (StripDocs, commentEnd, isDirective), and
--             Blanking is about it.
--   Llm       packages/shared/llm: llm.go (EstimateRequest) and errors.go (Classify).
--   Agent     packages/shared/agent: Trace is bounds.go and trace.go, Cite is cite.go, State and Loop
--             are agent.go. `run` is Run, `run_from` the loop of run and `round` its body, `dispatch`
--             the function of that name, `handle_call` the body of its loop. Answers and Tools are
--             tools.go and frame.go (Call, search, readSpan, definitionOf, callersOf, Frame), and Opened
--             is about Call, and Bound runs the loop over the tool set of NewTools, whose state and the
--             store's are one world. Induction and Rules give one proof rule for an invariant of the
--             loop; Ceilings, Spending, Provenance and Repeats use it, and Gate uses the induction.
--   Jobs      packages/shared/jobs/jobs.go: Queue has one function for each SQL statement, on the list
--             of the table's rows, with the constraints of migrations 0003 and 0005. Table and
--             Invariant are about the table between statements, Leases about Lease, Retries about Fail
--             and Sweep.
--   Rag       packages/shared/rag: Decide is decide.go (Validate of a Floor, Decide) and the modes of
--             rag.go, Fuse is fuse.go (Fuse, sortFused, entry, rrf), Terms is terms.go, Retrieve is
--             retrieve.go (Search as `search`, embedQuery, hitsOf, spansOf). Bounds is about Terms,
--             Spans and Outcome about Search. Cite and Permalink are cite.go, Answer is answer.go
--             (Budget, Assemble, render), and Assembly and Marker are about it.
--   Admit     packages/shared/admit/admit.go: Check as `check`, with stripGit, validSegment, path and
--             New. Sound is about Check.
--   Gateway   apps/gateway/internal/handler: Budget and Ask are ask.go, the budget and the loop behind
--             its slots, and Window and Ceiling are about any interleaving of requests. Read and
--             Answering are read.go, the answering route with its request, its answerers and its
--             refusals; Honest and Served are about it. Submit is handler.go (postRepo, getJob, validRef),
--             and Submitted runs it with every step of the job queue. Views and Symbols are graph.go, the
--             routes over the symbol graph (listSymbols, getSymbol, callersOfSymbol, approximate, citer).
--             Cited is about its citations, Shown about its rows and CallersRoute about callersOfSymbol.
--   Indexer   apps/indexer/cmd: Vectors is reindex.go and embedAll, and Filling and Reuse are about the
--             vectors. Index is `index` of main.go up to the vectors, Indexes about one file of it and
--             Whole about the walk. Job is doJob, isCommitSHA, complete, fail, failIndexed, failFinally
--             and recordFailure, and Ends, Reported and Ending are about it.
--   Graph     apps/indexer/cmd/graph.go: Containers is spanFor, mostSpecific and firstOverlapping, and
--             Order is about it. Build is buildGraph; Links, Defines and Rows are about it, in turn about
--             one row, the first loop and the whole.
--   Store     packages/shared/store: Callers is the statement callersSQL of graph_read.go, over the table
--             of edges that Graph builds. Chains, Rounds, Complete, Nearest and Reached are about it.
--             Evict is evict.go (Evict, RepoGone), and Gone and Evicted are about it.
--   Walk      packages/shared/walk/walk.go: Files is the function Files over a directory tree, and Listed
--             is about it. Lines is the function Lines, and how it agrees with the chunker.
--   Metric    apps/evalrunner/internal/metric: metric.go (HitAtK, ReciprocalRank, MeanOverAll, Sweep)
--             and gold.go (Gold).
-- The modules with names in Tests hold runs on concrete inputs.
--
-- How the code is modelled:
--   A Go string is a list of bytes, and `range` over it reads runes as UTF-8 decoding does; the tables
--   of package unicode are a record of predicates. Go's `int` is an unbounded integer, or a natural
--   number where it counts: no limit or count comes near 2^63. float64 is a record of operations and
--   comparisons of which nothing is assumed. Time is a number that the caller passes in.
--   Stateful code passes its state: the agent's loop is a record, and the model, the tool set, the
--   context's deadline and the clock act on a world of any type. A panic of a slice is `none`.
--   A statement of SQL is one atomic step, and an interleaving of gateways and indexers is a sequence
--   of steps; rows that another transaction has locked are a predicate that Lease skips.
--   The loop of windows has fuel: the last line plus 2, which is enough since each round moves on
--   by at least one line. The loop of run has as many rounds as its bound on steps. The loop of embedAll
--   has a round for each span without a vector, which is enough since a round takes at least one, and
--   printing a number has the number itself plus 1. stripGit has the length of its text. The recursion of
--   callersSQL has the depth plus 2 rounds, which is enough since a row of one round is one call deeper
--   than a row of the round before and only a row short of the depth has further ones.
--   A job of the indexer is a record of the results of its parts, in the order in which doJob runs them.
--   A directory tree is a data type, in the order in which WalkDir visits it; a file stands with what
--   ReadRegular makes of it. A handler of the graph's routes is a function of its parameters to its
--   response or its refusal.
--   A Go map that is only looked up is an association list, and where the code ranges over one the
--   order of the visit is a function that the caller gives. The log and the metrics are left out, but
--   for the ones that a theorem is about.
--
-- Parameters, since their code is not in the repository: go/parser, go/types and the go command,
-- package unicode, encoding/json, strings.ToLower, TrimSpace and EqualFold, strconv, net/url,
-- filepath.Ext, utf8.Valid, float64, SHA-256 and git's hash, `lower` of Postgres and its order of text,
-- the vectors of an embedder, and the results of git and of the file system. The model, the embedder and,
-- for the handlers, the store are interfaces of the source, and the code behind them is left out there.
--
-- Not modelled: the SQL of packages/shared/store but for the callers and the eviction, the routes of
-- apps/gateway that search, list and read repositories and spans, and HTTP itself, git and processes in
-- apps/indexer, embedding and model providers, configuration, logging, Prometheus, the loading of
-- packages in packages/shared/symbols, the schemas of the tools, the golden set and the command of
-- apps/evalrunner, infra/policy, and the console, which is another language.
pub mod Prelude
pub mod Models
pub mod Chunk
pub mod Llm
pub mod Admit
pub mod Agent
pub mod Indexer
pub mod Jobs
pub mod Gateway
pub mod Graph
pub mod Store
pub mod Rag
pub mod Walk
pub mod Metric
