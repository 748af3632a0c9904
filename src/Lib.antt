-- ===== src/Lib.antt =====
-- Verification of meme, a service that translates a canonical energy-system model into the inputs of
-- several solver frameworks (PyPSA, Calliope, AdOpT-NET0), runs them and collects their results.
--
-- The program's parts. A request (internal/api) carries a job: a model and an experiment
-- (internal/model). `parseTargets` turns its target parameter into names of the target registry
-- (internal/target). The job store (internal/service/jobs.go) makes a record, and a goroutine calls
-- `Executor.Execute` (internal/service/executor.go), which waits for one of the executor's slots and
-- lets the `Orchestrator` (internal/service/orchestrator.go) simulate the job for each target:
-- validation, expansion of the parameter sweep into runs, then emission, plan and solver run of each.
-- A solver's output is captured by a `cappedBuffer` (internal/service/runner.go); the job's log has a
-- view of the same shape. A sweep of the store drops finished jobs.
--
-- The modules.
--   Base            Names shared by all: tests on native numbers, lists, byte strings (Go's string),
--                   maps (association lists), decimal numerals, integers, and float64 as a parameter
--                   (`Float64`: its operations with what IEEE 754 says of its comparisons).
--   Model.Types     The data types of internal/model, field for field. A pointer is an `Option`.
--   Model.Run       The experiment and the job. Model.Run.Sweeps is `ExpandSweep` and the run count of
--                   `Experiment.Validate`; its children have the theorems.
--   Model.Values    `Reduce`, `Select` and `StructuralError` of internal/model/types.go.
--   Model.Overrides `Technology.At` of internal/model/constraint.go.
--   Model.Periods   `InvestmentPeriods` of internal/model/periods.go.
--   Model.Ids       `validID` and `validSeriesID` of internal/model/validate.go, and the keys of interned
--                   series of internal/model/intern.go.
--   Model.Intern    `InternInlineSeries` of internal/model/intern.go, a walk with the registry as its state.
--                   Pass: the rules for a step; Entries: the loops over maps; Slots and Kept: the blocks;
--                   Interned: the whole pass; Squatters: the reserved names.
--   Model.Enums     The string enums of internal/model, with their `Valid` methods.
--   Model.Dates     `parseDate` of internal/model/validate.go; package time is the parameter `Dates`.
--   Model.Electrical The methods of internal/model/electrical.go; package math is a parameter.
--   Model.Checks    `validateCapacity` and `validateStorage` of internal/model/validate.go, the effective
--                   bounds of a capacity, and `Performance.Validate` of internal/model/performance.go.
--   Model.Validate  `Model.Validate`, a list of problems in the order of the code. Each: the loops; Blocks:
--                   operation, costs, reactive power; Times, Flows, Slots, Techs, Registry, Limits, Arcs:
--                   the sections of the function; Parts: what a model without problems satisfies, section
--                   by section. Their children and References have the theorems on accepted models.
--   Model.Run.Validate `Experiment.Validate`; Model.Run.Modes has the modes, the defaults and
--                   `OptionWarnings`.
--   Model.Uses      `FirstMultiIndexed`, `NativeWarnings` and what they look up.
--   Emit.Resolution `ParseResolution` and `ParseHours`, Emit.Series the series helpers of
--                   internal/emit/timeseries.go, Emit.Labels the labels of the time steps. Parsing of floats
--                   and dates is a parameter.
--   Service.Capture `cappedBuffer` and `logText`. Ring: one write and the ring's content; Refine: the
--                   buffer against all that was written; Tail and Render: what is shown.
--   Service.Jobs    `JobRecord` and `JobStore`. A method that mutates the record returns the new one;
--                   its mutex makes it one step. Sweep has the theorems on the store's sweep.
--   Service.Orchestrator  `applyPath` and `ExpandRuns`; a run-time panic is an outcome of its own.
--                   Paths has the theorems on what a path changes, Panics on when it panics.
--   Service.Simulate `Orchestrator.Simulate`. What it calls in other packages is the record `Calls`.
--   Service.Executor `Execute` for one job. Outcome: what becomes of the record; Slots: the semaphore
--                   as a step relation on all calls of `Execute`, in any order;
--                   Deadlock: which calls can go on.
--   Api.Cors        internal/api/cors.go: the check of the configuration, the origins that it allows
--                   (Matching), and the headers of a response (Responses, with their
--                   theorems in Headers). `Vary` is left out.
--   Target.Registry `Register`, `RegisterAlias`, `Resolve`, `For`, `Known`, `Defaults`, and
--                   `parseTargets` of internal/api/handlers.go. Inv: the invariant of registration;
--                   Request: what a request's list comes to; Defaults: what `all` stands for.
--   Target.Gates    `validateGeneric` of internal/target/validate.go. Uses: what a job uses; Warnings: what a
--                   target ignores, and the whole function; Honored: what an accepted job may use.
--   Target.Pipeline `ValidateFor` of internal/target/validate.go: the checks of a job in their order.
--                   Accepted: what an accepted job satisfies; Again: the check of a checked job.
--   Emit.Capex      `AnnualizedCapex` of internal/emit/emit.go; package math is a parameter.
--   Emit.Native     `deepMerge` of internal/emit/native_emit.go; Merge: what each key holds behind it.
--   Target.Pypsa    The PyPSA target. Costs: the annualized costs; Planning: the component rows of
--                   retirable technologies and investment periods, and their names (Names, Existing);
--                   Scenarios: what a scenario's overrides assign (Sets: one for each; Grammar
--                   and Assigned: the table and attribute of each path); Buses: the bus grid
--                   (Marked), the copperplate's hubs (Hubs) and global constraints; Islands: the
--                   union-find of `acIslands`, whose children prove it a forest (Forest, Find),
--                   follow its links (Joined, Linked), and say which nodes share an island (Partition). Network: the AC network, its
--                   slack and the checks under the voltage law (Lawful: what they leave); Flow: the
--                   checks of a power flow (Held: its set-points; Balancing: its generators;
--                   Solvable), and the set-points that are emitted (Emitted, Agreed);
--                   Checks: `ValidateJob` (Fields, Runs, Modes, Dropped), and what
--                   it accepts (Encodable: the fields of its parts; Runnable: the run; Accepted).
--   Config          internal/env/env.go (Env) and internal/cli/cli.go (Cli); package flag, the environment
--                   and the file are parameters.
--   Tests           The theorems at concrete inputs.
--
-- Numbers. Lengths, counters and times are native natural numbers; the run count of a sweep is checked
-- against math.MaxInt (2^63 - 1) as the code does, so it never wraps. `total` of a capture is an int64
-- that 2^63 bytes would overflow; that is not modelled. A duration is an int64 and its sum wraps. The
-- loops are recursions on lists. Two have fuel: that over an ISO 8601 duration, the length of
-- its text, since each round takes a byte off it (running out of rounds is a value of its own,
-- `unfinished`), and `find` of `acIslands`, one more than the number of branches,
-- since a branch makes the forest at most one node higher. strings.TrimSpace removes the ASCII spaces only, and
-- strings.ToLower maps ASCII letters only.
--
-- Not modelled: what of the three targets is not named above (the tables of the emitters, the
-- checks of a job by Calliope and AdOpT-NET0), the HTTP handlers,
-- files, processes and process set-up. The simulation takes them as
-- parameters. A message of the validation stands for itself by its format; what it prints is left out.
pub mod Api
pub mod Base
pub mod Model
pub mod Service
pub mod Emit
pub mod Target
pub mod Config
pub mod Tests
