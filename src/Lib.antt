-- ===== src/Lib.antt =====
-- The registration of agents in the test platform: what the platform collects about the agents, the
-- verdict that it draws, the artifacts that it writes, and the validator that reads them back; and the
-- parts of the runtime around it.
--
-- How the parts interact. The orchestrator (platform/services/registration-orchestrator/orchestrator.py)
-- asks the collector (platform_runtime/registration.py) for a snapshot of six surfaces: the directory,
-- the registered and the connected users of the message server, the table c_agent, the inventory and the
-- computer tree. The collector turns each spelling of an agent into one identity, evaluates the snapshot
-- into a verdict, and the orchestrator writes it, with the manifest of the run, a failure summary and
-- one event per round, until a verdict passes or the deadline is over. The validator
-- (platform_runtime/registration_evidence.py) reads these files back. Before an agent starts, the gate
-- (services/ahenk/liderapi_gate.py) waits for the API. Scenario packs name runtime checks, which
-- platform_runtime/scenario_runner.py runs. The rows of c_agent and the configuration come from
-- platform_runtime/runtime_db.py.
--
-- Which file models which part.
-- Base.antt, Json.antt and Result.antt: what the source uses of Python. Numbers are the native naturals,
-- and integers of JSON are `ℤ`. A JSON value is a data type, an object is its list of keys in order,
-- with `get`, `has` and `==` as Python's `dict` has them. A call that may raise is a `Result`, with the
-- text of the exception. `sorted(dict.fromkeys(…))` is `sorted_keys`.
-- Identity.antt: `normalize_agent_id` and the identities of the rows and entries. `repr` stands for what
-- `str` prints of a list or an object. A row is taken to be an object where the source calls `get` on it.
-- ComputerTree.antt: the walk over the computer tree.
-- Snapshot.antt: `collect_snapshot`. What the adapters answer is a record of results, and the clock and
-- the hash of the configuration are parameters.
-- Verdict.antt: `evaluate_snapshot` with its checks, its taxonomy and the states of each agent.
-- Artifacts.antt: the JSON that is written.
-- Orchestrator.antt: `RegistrationOrchestrator`. Time is counted in ticks by an environment, which also
-- sleeps and observes. The loop of `settle_registration` runs on fuel, and one unit per second of the
-- timeout and one more are enough, since a sleep lasts a second or reaches the deadline. The endless
-- loop of `run_forever` is cut after a number of rounds.
-- Evidence.antt and below: the validator. The messages are the source's. A file is missing, broken or
-- parsed, so writing JSON and reading it is taken to give the data back.
-- Gate.antt: the wait for the API. The network is a parameter, and so is the URL after the address of
-- the service was looked up. One unit of fuel per second of the timeout and two more are enough.
-- Gate/Discovery.antt: the choice of the address among the containers.
-- Checks.antt: the checks of the readiness reports and their summary.
-- Scenario.antt: the loading of scenario packs and the run of their checks. The YAML files and the
-- registry of runners are parameters; an exception of a runner, which ends the report, is left out. A
-- `requires` that is no mapping is taken to raise when the pack is
-- loaded; in the source it may do so a little later.
-- Scenario/Active.antt: which scenarios are active.
-- RuntimeDb.antt: the connection to the database and the errors that leave it. The driver is a
-- parameter, and so is whether a connection closes.
-- PolicyRoundtrip.antt and PolicyRoundtrip/Run.antt: the readiness check that makes a group, a profile
-- and a policy and deletes them again (platform_runtime/readiness/policy_roundtrip.py). The API is a
-- parameter, each call of which answers or raises, and so is `int` on the identifiers of its answers.
-- Topology.antt: the topology profiles and their overrides (platform/topology/profile_loader.py). The
-- entries that can be overridden are a function of their name.
--
-- Baseline.antt and below: the golden baseline (platform_runtime/golden_baseline.py). A directory is a
-- function from paths to what a file holds, which is a parameter with its size, its hash and its JSON.
-- Baseline/Capture.antt: the capture, with the answers of the platform and the browser as a record. The
-- steps that make folders and build the adapters are taken to succeed. Baseline/Validate.antt: the
-- validation and the loading. Baseline/Diff.antt: the comparison with the live platform.
--
-- Access.antt: `d[k]` and `d.get(k)` on data of any type.
-- Runner.antt, Runner/Actions.antt and Runner/Run.antt: the scenario runner (orchestrator/main.py). The
-- adapters are a record of calls in a world, each of which answers or raises. The connection rate is a
-- fraction, which is compared and printed by parameters.
--
-- Support.antt and below: which steps of the scenarios are supported
-- (platform_runtime/readiness/mutation_support.py), the evidence of the mutations
-- (platform_runtime/readiness/mutation_evidence.py) and the summary of the scenarios' support
-- (platform_runtime/scenario_runner.py). Which methods the adapter has, which paths may be written and
-- the environment are parameters.
--
-- Membership.antt and below: the snapshot of the user groups and its check
-- (platform_runtime/readiness/__init__.py). The walk runs on fuel, and as many units as there are objects
-- in the tree are enough, since each pass takes one off the queue.
--
-- ParityGate.antt and EffectProbe.antt: two of the readiness gates of that file, the registration check
-- with its three attempts and the effect probe of a policy. Collecting a snapshot, the API, the command
-- history and the sleeps are parameters in a world.
--
-- PolicySnapshot.antt: the snapshot of the active policies and its check, in that file too.
-- Reports.antt: the core and the operational readiness report, over the gates as calls in a world.
--
-- What is not modelled. The reading of environment variables and command lines, the Docker socket, the
-- rendering of reports to Markdown, the time stamps, and the runtime support context in the validator's
-- report. The other readiness gates, the provisioner, the exporters, the adapters, the scripts and the
-- hooks of the agents have no model yet.
pub mod Base
pub mod Json
pub mod Result
pub mod Identity
pub mod ComputerTree
pub mod Snapshot
pub mod Verdict
pub mod Artifacts
pub mod Orchestrator
pub mod Evidence
pub mod Gate
pub mod Checks
pub mod Access
pub mod Baseline
pub mod Scenario
pub mod Runner
pub mod RuntimeDb
pub mod PolicyRoundtrip
pub mod Support
pub mod ParityGate
pub mod EffectProbe
pub mod Reports
pub mod PolicySnapshot
pub mod Membership
pub mod Topology
mod Tests
