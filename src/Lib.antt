-- ===== src/Lib.antt =====
-- agent-creance runs a coding agent in a cage whose network goes through one proxy per project. A
-- project's .agent-creance.yaml, layered over the included files, is merged into one configuration;
-- its egress rules are compiled into a rule set, again after each edit; the proxy decides every
-- connection and request by that rule set, with credentials that a broker holds; and the lifecycle
-- manager starts the proxy with the first agent of a project, shares it with the others, and stops
-- it with the last.
--
-- Parts and files:
--
--   Policy/          internal/policy. Rule holds the data of policy.go. Host, Path and Glob are
--                    `canonicalHost`, `matchHost`, `splitPath`, `matchSegments`, `matchMethod` and
--                    `matchSegmentGlob` of glob.go; Specificity is `ruleSpecificity` and
--                    `moreSpecific`; Match is `ruleMatches`, `bestMatch` and `Decide` of match.go;
--                    Disposition is `HostDisposition`, the answer at the CONNECT stage;
--                    FromConfig is `FromConfig`, the bridge from the configuration;
--                    Compile is compile/compile.go: `buildRuleSet`, with the generators as a
--                    parameter, a function from a name and the bytes of a manifest;
--                    Compile.Resolve is `resolve`, from a project's directory to the layers, the
--                    manifests and the hash, where the hash is a parameter; Compile.Credentials is
--                    `validateInjectRefs` and `CredentialsFromConfig`; Compile.Gate is `Compile`,
--                    `Refresh`, `build` and `write` over the two files of the state directory,
--                    where which file operations fail is a parameter and the input hash is a field
--                    of the inputs;
--                    Compile.History is about sequences of runs.
--   Config/          internal/config. Model holds the types of config.go, Merge is `merge` of merge.go
--                    with its helpers; the four dedupe functions are one function over an equality,
--                    and Merge.Equality has the equality of each element type; Validate is
--                    `validateRules` of validate.go with the checks it calls, as a list of issues.
--                    HostService is `parseHostService`; Load is the loader of load.go, `Load`,
--                    `ResolveLayer`, `ResolveFiles` (Load.Watch) and `ValidateInclude`, with
--                    `ValidateEffective`; what is on the disk, the symbolic links and `Parse` are the
--                    record Load.Files.
--   ConfigWatch/     internal/configwatch. `loop` with the debounce timer, `doReload`, `rederive` and
--                    `reconcileDirs`, over what a reload and the file system answer.
--   State/           internal/state. Resolve and the paths of a project's files.
--   Proxy/           internal/proxy/lifecycle.go. Lock is the contents of proxy.lock and the functions
--                    on its agents; Program is the monad of the operations, their errors and effects,
--                    and the reads and writes of the lock; Broker is `startBroker`, `stopBroker` and
--                    the readiness polls; Attach is `Attach` and `choosePort`; Teardown is `Detach`,
--                    `Inspect`, `CleanOrphan` and `Clean`. Ledger, Reach and Session reason about the
--                    processes of one call, all sequences of calls, and one invocation's session.
--   Broker/          internal/broker. Store is store.go over a memory of buffers, Server the answer of
--                    server.go and protocol.go, and Refresher the loop of refresher.go, for which what
--                    the minter and the sleeper do in each round is a parameter.
--   Audit/           internal/audit. Lines is entry.go and the splitting into lines, Follow is the
--                    follower of follow.go, over the bytes of every file that was ever at the path,
--                    and Summary is the tally of summary.go over the streams of read.go.
--   FilePath         the functions of Go's path/filepath that the loader calls, on Unix.
--   Strings, Prelude the string functions of Go that the parts use, over lists of bytes, and lemmas on
--                    lists, tests and strict orders.
--   Tests/           runs at concrete inputs, and each theorem at one.
--
-- How the state corresponds. A rule set is its two lists of rules; a pointer to a list is an Option,
-- so that an omitted key differs from an empty list. A Go string is the list of its bytes; case is
-- folded on ASCII letters. An operation of the lifecycle manager is a function from a World, the
-- contents of the lock file and the effects done so far, to a result or an error and the next World.
-- It runs under the flock, so operations follow one another; Reach.Step is one of them with
-- arbitrary answers of the system. What the operating system answers during a call, liveness and
-- start times of processes, free ports, spawned process ids, failures of each system call and what
-- each poll sees, is the record Program.System, a parameter of each operation. Process ids, ports
-- and start times are natural numbers, 0 where the code uses 0 for none.
--
-- Fuel and bounds. The loop of `matchSegmentGlob` runs on fuel, one round for every pair of a
-- position in the pattern and one in the segment; the proof that it decides the meaning of the
-- pattern includes that the fuel is enough. The readiness polls make at most 100 attempts, as the
-- code does. The loader recurses on the levels of includes that are left, 11 for maxIncludeDepth = 10,
-- where a file below the last is the error of the code. Every other loop is structural recursion.
-- Indices, counters and instants of time, in nanoseconds, are unbounded.
--
-- Not modelled: the texts of errors and warnings, the argument vectors of spawned processes and the
-- JSON of the lock, of policy.json, of a request to the broker and of a log line, whose unreadable
-- contents are constructors or a failing parser; the decoding of YAML; case folding beyond ASCII; the
-- accept loop of the broker and its start from the payload of the command line; the setup of the file
-- watcher of the log, its listing, and all text for people. The command line, the cage and profile,
-- the generators, the minters, the validation of credentials, the editing of configurations and the
-- diagnosis reports have no model; the manifest lists them with the reasons.
pub mod Audit
pub mod Broker
pub mod Config
pub mod ConfigWatch
pub mod FilePath
pub mod Policy
pub mod Prelude
pub mod Proxy
pub mod State
pub mod Strings
pub mod Tests
