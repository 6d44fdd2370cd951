-- ===== src/Lib.antt =====
-- A model of the Go module xutils (github.com/sxwebdev/xutils) in cubical type theory: the pages of dbutil/,
-- the package retry/, which calls a function again until it succeeds, the package pipeline/, the
-- engine that runs sagas, with its definitions of steps, their validation, the executor with its
-- persistence, retries, polls, branches, repeats and compensation, the journal that it keeps, the
-- package workflow/, which runs stages of steps, the package broker/, which hands messages to the channels
-- of subscribers, the package loopper/, which runs a function again and again, the random strings and
-- numbers of randutil/, and the containers of syncutil/.
--
-- How the parts interact: `Run` (pipeline/executor.go) validates the definition, migrates and checks an old
-- state, makes the new status durable through the snapshot callback, and walks the steps. executeSteps runs
-- a scope of steps by executeStep, which calls executeAction, executePoll, executeBranch or executeRepeat;
-- the last two run scopes of their own. An error ends in a deferral, in a return that leaves the run
-- resumable, or in runCompensation. Every call of a callback and every snapshot goes to a list of calls.
--
--   Bytes, Bytes/Dict, Bytes/Decimal   Go strings, maps with string keys, strconv.Itoa and Atoi
--   Pipeline/Errors       pipeline/errors.go, and deferredDetails and isDeferred of pipeline/executor.go;
--                         normalizeDuration of pipeline/clock.go
--   Pipeline/State        pipeline/state.go: RunState and its parts
--   Pipeline/Paths        StepPathKey, isPathPrefix (pipeline/executor.go), stepPathFromKey, hasPathPrefix
--                         (pipeline/compact.go)
--   Pipeline/Compact      pipeline/compact.go: compactRepeatIteration, mergeDiagnostics
--   Pipeline/Definition   pipeline/pipeline.go: Pipeline, Step and their callbacks; the Executor's fields
--   Pipeline/Validate     pipeline/pipeline.go: validate, validateSteps, findCompensatorPath
--   Pipeline/Helpers      pipeline/helpers.go: the constructors of steps;  Accepted: what validate says of them
--   Pipeline/Machine      what a method of the executor reads and changes; snapshot, marshalData
--   Pipeline/Engine       pipeline/executor.go: Journal (recordAttempt and its kin, persistDeferred), Retry
--                         (runWithRetry), Lookup (findStepByPath, isStepCompleted), Compensate
--                         (runCompensation), Sequence (executeSteps), Handlers (executeAction, executePoll),
--                         Branching (executeBranch), Repeating (executeRepeat), Execute (executeStep), Start (Run)
--   Pipeline/Protocol     the ledger of snapshots: Ledger states it, Rules has a rule for each way in which
--                         methods are put together, the rest follow the files of Engine
--   Pipeline/Rollback     what compensation undoes;  Pipeline/Resumption: an interrupted step;
--   Pipeline/Versions     a state of another version
--   Pipeline/Deferral, Deferring, Backoff, Journaling   deferrals, what persistDeferred answers, retries,
--                         compaction
--   Pipeline/Completion    steps that return nil;  Pipeline/Validate/Runnable, Sound   what validate accepts
--   Pipeline/Samples, Pipeline/Runs, Pipeline/Examples   concrete definitions and runs, the theorems at them
--   Retry/Policy, Retry/Delay, Retry/Loop   retry/policies.go, retry/errors.go and retry/retry.go: backoffDelay, Do;
--   Retry/Options         retry/options.go and New;
--   Retry/Attempts, Retry/Endless   the calls that Do makes, and the infinite policy
--   Workflow/Errors, Workflow/State, Workflow/Model   workflow/errors.go, step_status.go, step_state.go,
--                         workflow_state.go, step.go, stage.go and the struct of workflow.go
--   Workflow/Init         init, with what it accepts in Sound and Accepting
--   Workflow/Policies     workflow/step_retry_policies.go;  Workflow/Attempts: the calls it makes
--   Workflow/Snapshots    workflow/workflow_methods.go, snapshot.go, workflow_vars.go, with their round trip
--   Workflow/Current      CurrentStage and CurrentStep of workflow/workflow_methods.go;  Latest: what they find
--   Workflow/Steps, Workflow/Runs   handleStep, handleStage; execute, finish, Run
--   Workflow/Preserving   predicates that a run preserves, and runs over steps that are done;
--   Workflow/Reporting, Failing, Crashing, Returning   what a step records, failures, panics, termination
--   Workflow/Samples, Workflow/Examples   a concrete workflow, the theorems at it
--   Broker/Model, Broker/Steps   broker/broker.go: the handlers of Start; the steps of all goroutines
--   Broker/Handlers, Closing     what the handlers do;  Broker/Invariant, Keeping, Reaching: every state
--   Loopper/Model         loopper/loop.go and options.go;  Loopper/Invariant, Waiting: its states, its end
--   Broker/Examples, Loopper/Examples   concrete runs, the theorems at them
--   Randutil/Strings, Uniform, Drawing   randutil/string.go: GenerateRandomString, its indices and letters
--   Randutil/Numbers      randutil/number.go, and GenerateKeyBytes of randutil/key.go
--   Syncutil/Slices, Maps   syncutil/slices.go, syncutil/maps.go;  Finite: a Map as a function of its keys
--   Dbutil/Pagination     dbutil/pagination.go: Pagination
--
-- A method is a function of a Machine (the RunState, the data store, the state of the caller's world and the
-- calls made so far, the last one first) to a result and a Machine. Callbacks, the clock, the context, the
-- persistence callbacks, the migrator, json.Marshal and the texts of errors are functions of the world, the
-- parameter Executor. Theorems that need it take the hypothesis Sticky: once a context is cancelled it stays so,
-- as the documentation of context.Context has it.
--
-- The functions of workflow/ act on a Live state: the world, the WorkflowState, the states of the steps by
-- the pointer of their step, and the flags. A callback is a function of it, so it can change all of these,
-- but not the lists of stages and steps. init turns declared stages, with their nil pointers, into ready
-- ones. Run's select is a choice that the world makes: whether a cancellation has been seen at each look at
-- isStopped, and whether execute returns before the shutdown timeout.
--
-- The goroutines of broker/ and loopper/ are step relations: an Event is an atomic step, `enabled` says when a
-- goroutine can take it, `after` what it does, and Reach has every interleaving. A section under a mutex, an
-- atomic operation, a send or a receive on a channel is one step. A handler of the broker's Start is one as
-- well: what other goroutines do meanwhile concerns other channels, or comes to the same before or after it.
--
-- Steps are trees, so the walk over a definition is structural recursion, as are the loops over attempts and
-- over completed steps. Three loops run on fuel. For infiniteRetry of retry/retry.go and a MaxRetries below 0
-- in workflow/ it is the number of attempts: enough is one more than the failures that are left, and with
-- another MaxRetries any fuel will do. For GenerateRandomString it is the number of batches of random bytes:
-- enough are those in which as many bytes are accepted as letters are wanted. int and time.Duration are
-- integers with their wrap-around to 64 bits (Prelude/Int), the revision is a natural number modulo 2^64. A
-- nil function that is called, and an index out of range, give an error or a reply that stands for the
-- run-time panic. A map is an association list, visited in the order of its entries. A nil map reads as an
-- empty one.
--
-- Not modelled: the observer and the loggers (they are taken as nil, and the reads of the clock and the
-- context that only fill the event of a cancelled context are left out), the options of pipeline/options.go,
-- JSON, the system clock, the copies that pipeline/migration.go makes, the options and the setters of one
-- field in workflow/, Locker of syncutil/, and the packages cacheutil, the rest of dbutil, loggerutil,
-- strutil, testutil and timeutil: they call other packages, go through floating-point seconds, or read the
-- tables of Unicode.
pub mod Broker
pub mod Bytes
pub mod Dbutil
pub mod Loopper
pub mod Pipeline
pub mod Prelude
pub mod Randutil
pub mod Retry
pub mod Syncutil
pub mod Workflow
