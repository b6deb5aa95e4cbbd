-- ===== src/Lib.antt =====
-- Ghost Mesh moves cards through a panel: a graph of buckets, nodes and pipes. Workers claim a card
-- from a bucket under a lease, submit artifacts and so move the card on; validators record decisions;
-- every change is an event in the card's history. This library models the services that keep that
-- state in memory, and the decisions that guard them.
--
-- The parts, and the files that model them (paths below src/ghostmesh/):
--   domain/models.py, domain/authority.py: Domain (Panel, Work, Registry, Shadow, Authority).
--   patchpanel/validator.py: PatchPanelValidator is PanelValidator.Checks; each _validate_* method is
--     the list of the messages that it appends. PanelValidator.Meaning says on the panel alone what a
--     valid panel is.
--   runtime/service.py: Runtime.Service. runtime/memory.py: InMemoryCardRuntime is the record Runtime
--     of Runtime.State; its public methods are in Runtime.Cards, Runtime.Claim and Runtime.Leases,
--     under the names of the code. Runtime.Calls has a call as a value, and histories of calls.
--   artifacts/validation.py: Artifacts, which submit_artifact asks through ensure_artifacts_accepted.
--   auth/scopes.py, auth/repositories.py, auth/service.py, auth/catalog.py: Auth.Scopes,
--     Auth.Repository, Auth.Service and Auth.Catalog; the last one has also what bootstrap.py does to
--     give a participant a built-in role.
--   runtime/shadow.py: ShadowService is Runtime.Shadow, over the runtime in memory.
--   registry/service.py: Registry. genesis/service.py: Genesis, which searches the registry and
--     creates cards in the runtime.
--   nodes/executor.py: NodeExecutor is Nodes, with its methods on sources and workers in Nodes.Work,
--     the handlers of validators in Nodes.Handlers and Nodes.Validation, and the sinks in Nodes.Sinks.
--     It calls the runtime, the registry and the authorization repository.
--   observability.py: Observability, with the diagram and the dashboard in Observability.Topology.
--   auth/dependencies.py: Auth.Dependencies. defaults/bootstrap.py: Bootstrap, over the runtime and the
--     registry.
--   boundaries.py: BoundaryAdapterService is Boundaries: what a request comes to before it changes
--     anything is in Boundaries.Ingress and Boundaries.Egress, and execute_source and execute_sink are
--     in Boundaries.Source and Boundaries.Sink, over an executor of nodes with the runtime alone.
--   runtime/errors.py, patchpanel/errors.py: Errors, with one constructor for each place that raises.
--
-- How the state is written: an object that a method changes is a record that the method takes and gives
-- back, beside a value or an error (Exec); what is written before an error stays written. A method of
-- the runtime that takes an idempotency key is `keyed`: an answer that the table has, or the checks,
-- the writes and the entry in the table. A dict is an association list in insertion order. A UUID and
-- an instant are natural numbers, an instant in microseconds.
--
-- Parameters: networkx is the record GraphLibrary, and GraphLaws are the documented facts about it;
-- PanelValidator.Toy meets them. Python's str, int, the text of a UUID and isoformat are
-- Conversions. pydantic's model_dump is Dumps, and a function where a bucket is dumped; its
-- model_validate is Models, which gives a model or the text of the error, and for the boundaries
-- Adapters, which has str.format too. The files of the configured panels are Files, with the
-- loader. The readings of the clock and the uuid4s of a call are fields of Env, AuthEnv, GrantEnv,
-- GenesisEnv, ShadowEnv, NodeEnv or BoundaryEnv, and a Turn for each lease that expires. One field
-- stands for several readings in two places: those that claim_card takes card by card, and those of
-- the two listings in ensure_builtin_role_assignment. Instants and durations have no upper bound, so
-- the OverflowError of a date that is too far off does not occur. No function runs on fuel but the
-- search of PanelValidator.Toy, which is an instance for tests and takes as many rounds as its graph
-- has edges.
--
-- Not modelled: the services over Postgres (runtime/postgres.py, the Postgres classes of
-- auth/repositories.py and registry/service.py), the artifact stores, the loader of panel files,
-- and the HTTP, MCP, SDK and CLI front ends; texts of messages; what pydantic checks when a record
-- is made, except the scope of a grant and the texts of an intent that must not be empty.
pub mod Prelude
pub mod Python
pub mod Errors
pub mod Result
pub mod Exec
pub mod Domain
pub mod Artifacts
pub mod Auth
pub mod PanelValidator
pub mod Runtime
pub mod Registry
pub mod Genesis
pub mod Nodes
pub mod Observability
pub mod Boundaries
pub mod Bootstrap
mod Tests
