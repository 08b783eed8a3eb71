-- ===== src/Lib.antt =====
-- Verification of the interview platform's core, written from the Go sources under internal/.
--
-- The program keeps a tree of interview problems, shows candidates a part of each, resolves a variant of a
-- problem for one interview, brings up a disposable environment, breaks it with the variant's fault pack,
-- checks and scores it, and tears it down with the evidence kept. The parts and their models:
--
-- - Leak (internal/leak): which files of a problem a candidate may see. Leak.Path and Leak.Pattern are what the
--   gate uses of Go's path.Clean, strings.Split and path.Match, on bytes; Leak.Glob is glob.go; Leak.Classifier is
--   NewClassifier, Classify and Protected; Leak.Scan is the walk of a tree and Leaks. A tree is given with its
--   entries in the order of fs.WalkDir.
-- - Bundle (internal/bundle): Bundle.Write is how a drop is written, with its steps in their order, and Bundle.Gate
--   the last look at it before it is handed out, which calls the classifier. The file system, git and the
--   execution of a template are a Host and a Problem, parameters.
-- - Fileio (internal/fileio): WriteAtomic as a step relation, a call of the operating system at a time. Each write of
--   the other models is one that is there whole or not at all.
-- - Interview (internal/interview/interview.go): Interview.Seed has ValidSeed and the words of NewSeed, and
--   Interview.Store the registry: a document per seed in the order of os.ReadDir, and the current marker. A write
--   replaces a document whole; save, set_current, clear_current and remove are what a write leaves that succeeds, and
--   Cli.Commands has those that fail. A document is found by its exact seed: seeds that are no valid ones and that
--   filepath.Join would clean into another's path are outside the model. Records of one time are listed in the order
--   of their documents, where slices.SortFunc promises none.
-- - Content.Params and Variant (internal/content, internal/variant): the rules of a parameter, and the values that
--   an interview's id and its overrides resolve to. A Go int is kept in excess 2^63 form. The random stream and
--   strconv.Atoi are parameters. Variant.Lint is lint.go, over the trees of text/template/parse.
-- - Registry (internal/registry/registry.go): the problems of a content root, their ids and their findings.
-- - Debug (internal/debug): Debug.Scenario has faults and packs, Debug.Load is LoadScenario, Debug.Engine the commands from Up to Down,
--   Debug.Prove the gate that proves a scenario. The machine is the state file and the world; what runs in the world
--   is a Substrate, a parameter: scripts, the provider, the clock, waiting, cancellation, the files of the workdir.
--   A command returns its value or error together with the machine it leaves, since what was done before an error
--   stays done. Scripts are taken to leave the state file alone.
-- - Grading (internal/grading/score.go and rubric.go, RefreshScore of internal/session/evidence.go):
--   Grading.Hints merges and appends ledgers (two times are one where their instant and their Location are), Grading.Score takes the score of a live environment by the
--   engine's Status, Grading.Rubric validates a rubric.
-- - Content.Taxonomy and Content.Manifest (internal/taxonomy, internal/content/validate.go): the vocabularies and
--   what validateManifest asks of a manifest, which asks Content.Params of each parameter.
-- - Cli (internal/cli/interview.go and discover.go): Cli.Status is what a session's record, or a discovered host, is
--   doing and where it sorts; Cli.Commands has start, end and the stages over the registry, local and on a provisioned
--   host (remote.go, and deliver of bundle.go), where the engine and the account are records of calls,
--   and Cli.Live fills the first from Debug.Engine and Session.Stack; the registry's file writes may fail, and a
--   console carries their answers (disk). Cli.Reconcile settles the listing of Interview.Store's sessions against the account's
--   hosts. The clock and LoadState are arguments. Cli.Target is resolveProblem of common.go: the session, the
--   problem and the variant that a command on an environment acts on.
-- - Session (internal/session): Session.Stack is Start and Stop of session.go, with the parts of Start in
--   Session.Stack.Launch, the command lines it writes in Session.Stack.Shell, and each process's pidfile. What runs
--   on the machine is a Host, a parameter (a process is logged as signalled when the kill is called, also if that
--   fails): launches, signals, tmux, the ports and the clock. Session.Evidence is
--   evidence.go: the archive and its draft as lists of entries, over a Workdir, a parameter.
-- - Redteam.Ledger (internal/redteam/ledger.go): the verdict of a calibration run, and the latest run of each pack.
-- - Base: lists, text as bytes, tests, sorting, results and the steps that carry a machine (Base.Exec).
--
-- Fuel: the polling loops, of VerifyWait, of proveFault and of waitListening, run on fuel and answer out_of_fuel without it, which no
-- run of the code does. For each, fuel for each unit of its timeout and two more is enough on a clock that runs
-- forward and with a poll interval that is not zero. All else is structural recursion; NewSeed's loop takes the list of its draws,
-- and castSegments counts up to a bound of the Workdir.
--
-- Not modelled: the rest of the command line, the timeline and the proxy of a session, the providers, the execution of templates, YAML and JSON decoding
-- (a file that does not decode is one of the cases), the log, provenance, Terraform and the sample problems.
pub mod Base
pub mod Bundle
pub mod Cli
pub mod Content
pub mod Debug
pub mod Fileio
pub mod Grading
pub mod Interview
pub mod Leak
pub mod Redteam
pub mod Registry
pub mod Session
pub mod Variant
