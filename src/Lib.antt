-- ===== src/Lib.antt =====
-- The FIELD platform is a set of services that govern software agents: what an agent may do is
-- delegated to it by a human (Delegation authority), what it spends is metered and capped (Spend
-- governor), what happens is written to a hash-chained log (field_core.ledger, which the sealed ledger
-- serves), the credentials of a deployment are rotated by a journaled agent (tools), the registry says which
-- agents there are and which are stopped, the kill switch stops and revives them there, and the federation
-- broker decides what crosses to another organisation. This library models those parts. They meet in the ledger: the delegation authority writes its event first and
-- changes its table only when the ledger has answered, while the governor keeps what it has metered and
-- counts the notes that the ledger did not take.
--
--   Prelude      shared names, Boolean tests and case splits (Prelude.Tests), lists over the native
--                numbers (Prelude.Lists), Python dicts and keyed tables (Prelude.Dict).
--   Ledger       packages/field-core/src/field_core/ledger.py: LedgerEvent, model_dump with the keys
--                that are omitted when None, compute_event_hash, make_event, flag_signing_failed,
--                verify_chain (verify_from is its loop). Ledger.Hash is about what stands under a hash,
--                Ledger.Chain about the walk, Ledger.Tamper about tamper evidence.
--   Delegation   packages/field-core/src/field_core/delegation.py, the token. Below it, from
--                services/delegation-authority/src/delegation_authority: Delegation.Doa (doa.py, the
--                roster of grantors), Delegation.Store (store.py, the SQLite tables), Delegation.Mint and
--                Delegation.Revoke (api.py, the handlers of POST /tokens, revoke and introspection).
--                Delegation.Revoke.Steps has the table's life under concurrent requests and crashes, with
--                the ledger write and the table write of a revocation as two steps.
--   Governor     services/spend-governor/src/spend_governor/core.py: Governor.Cap (evaluate),
--                Governor.Actions (action_totals), Governor.Window (window_action_rows,
--                window_retry_after, rolling_window_start), Governor.Period (parse_rate_period),
--                Governor.Store (GovernorStore: caps, spend rows, escalations), Governor.Limits (the
--                table of rate limits and the validation of a set), and from api.py beside it
--                Governor.Throttle (_throttle, over the windows of the rate limits and of the policy)
--                and Governor.Resolve (the handler that resolves an escalation). Governor.Usage has the
--                usage policies and evaluate_rogue, from usage.py and core.py.
--   Rotation     tools/deployment_agent/states.py, Rotation.Journal for journal.py, Rotation.Refuse for
--                refuse.py and actions.py, and for rotation.py Rotation.Engine (the state of the engine,
--                its exceptions, its actions), Rotation.Engine.Handlers and Rotation.Engine.Steps (the
--                handlers of the states), Rotation.Engine.Rotate (the loop, fresh and resumed runs) and
--                Rotation.Engine.Clear (clear_halt, tidy). Rotation.Engine.Keeps, .Kept, .Certified,
--                .Walk, .Lines and .Safe are about invariants of the journal and the calls, .Gives and
--                .Ends about what is returned, .Reach about sequences of processes, .Inert about calls
--                that change nothing, .Cleared about clear_halt. A line of the journal may stand in its
--                file although the fsync behind it has failed.
--
--   Registry     services/agent-registry/src/agent_registry: models.py and the table of store.py, with
--                Registry.Kept and Registry.Steps about its methods and sequences of them, and
--                Registry.Api for the handlers of api.py that write.
--   Federation   services/federation-broker/src/federation_broker: the contracts of engine.py and
--                put_contract of api.py, with Federation.Counts and Federation.OneActive about the rule of
--                one active contract for an organisation; Federation.Decide for the broker's decision.
--   KillSwitch   services/kill-switch/src/kill_switch: api.py by its routes, in KillSwitch.Signal
--                (_signal_endpoint, _signal_and_ledger), KillSwitch.Kill (_kill_one, kill_domain),
--                KillSwitch.Routes (revive, heartbeat, checkin, liveness) and KillSwitch.Drill, and the
--                heartbeat store of store.py. KillSwitch.Client is the registry client of
--                packages/field-core/src/field_core/clients.py over the table of Registry. An action
--                returns or raises; KillSwitch.Keeps and KillSwitch.Walk have one rule for each step that
--                keeps an invariant, KillSwitch.Ends the rules for what holds on return,
--                KillSwitch.Registered what the routes rely on of the registry, and KillSwitch.Safe,
--                .Killed, .Domain, .Restored, .Beats and .Returns the theorems.
--
-- The registry and the kill switch meet in IsRegistry (KillSwitch.Registered), which the client over the
-- registry's table fills (KillSwitch.Client.Backed), requests and answers that are lost included, where the
-- path that the client builds of an id names the row of that id. The client does not escape the id, so an id
-- such as `b?x` names another row, and for it nothing is claimed. While one request to the kill switch is
-- served, no other client writes to the registry.
--
-- The tests and the instances of the theorems stand in Ledger.Tests, Delegation.Tests, Governor.Tests,
-- Governor.StoreTests, Governor.UsageTests, Rotation.Tests, Rotation.EngineTests, Registry.Tests,
-- Federation.Tests and KillSwitch.Tests.
--
-- State is passed explicitly: a store is a record of tables, a table a list of rows or a dict in
-- insertion order, a method of a store one step, as its lock makes it. A handler takes what it asks of
-- others as a record (MintEnv, RevokeEnv) and returns its answer with the new state; an HTTP error is a
-- constructor of Refusal. Numbers are natural numbers: the source bounds amounts by MAX_AMOUNT and
-- Python's integers do not wrap. An instant is a number of microseconds since the start of year 1.
-- Every loop of the source but two runs over a list that is at hand, so the models recurse on that list
-- and use no fuel; the loop of _drive has six rounds (Rotation.Engine.Rotate.rounds), one more than there
-- are handlers, and each handler moves on; and a drill looks at the registry at most 100 times, as its
-- loop does (KillSwitch.Drill.tries). The rotation engine is a function of its state that returns,
-- raises or dies: life is the number of actions (a call of the provider, a line of the journal, a stage
-- file) that the process still makes. Its provider is a record of functions on a world that others may
-- change between processes.
--
-- Parameters of the model are sha-256 over canonical JSON (hexdigest), the name-based revocation id
-- (stable_revocation_id, a uuid5), random identifiers, clocks, the operator rules, the registry, the
-- manifest lookup, whether the ledger can be reached, the verdict of the journal's secret checks, the
-- provider of credentials, the regular expressions of the refuse list, the reading of a manifest's kill
-- endpoint, the answers of that endpoint, the normal form of an organisation's name, and the check of a
-- signature under a key.
--
-- Not modelled: HTTP, SQLite, YAML and file I/O, the texts of messages, the migrations of databases,
-- the governor's other handlers, usage costs, the lock file of a rotation, the discovery of agents,
-- the health reports, the commands of the command lines, the events of the operator layer,
-- and the services that are not named above.
pub mod Prelude
pub mod Ledger
pub mod Federation
pub mod Governor
pub mod Delegation
pub mod Registry
pub mod KillSwitch
pub mod Rotation
