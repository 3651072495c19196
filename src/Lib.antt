-- ===== src/Lib.antt =====
-- Verification of agents-router, a local router that forwards the notifications of coding agents to
-- chat providers and takes replies back to the agents. Paths are from the repository's root.
--
-- The parts and how they interact. A source emits a Signal (src/signal.rs). Before the router sends
-- it to a provider it asks the delivery safety guard (src/delivery_safety.rs), which holds back
-- storms of duplicates. After a delivery whose receipt names a provider thread, the response surface
-- policy (src/response_surface_policy.rs) says whether the thread may be replied to, and
-- src/response_surface_runtime.rs then creates a surface in the response surface ledger
-- (src/response_surface_ledger.rs). A reply that comes in is looked up by its thread, its event is
-- claimed in the same ledger, handed to the agent under a lease of its session
-- (src/execution_scope_guard.rs), and its outcome is recorded there.
--
-- Files.
--   Prelude, Prelude/*     names of the libraries passed on, lists, options, maps and texts.
--   Exec, Exec/Results     errors, results, and a state with an error as a do block.
--   Persist                a state file: the JSON library as a parameter, loading, and replacing a
--                          file by a rename (load_state_file, load_ledger_file, save_state_file,
--                          save_ledger_file).
--   Signal, Config, ProviderCatalog, AgentCatalog
--                          the types of src/signal.rs, src/config.rs, src/provider_catalog.rs and
--                          src/agent_integration_catalog.rs that the rest uses. The table of the
--                          agents is in AgentCatalog/Descriptors.
--   Config/*               src/config.rs: the validation of a configuration, over the error type of
--                          Config/Checked.
--   ProviderUrls           src/provider_urls.rs: the checks of the URLs, which the validation calls.
--   ProviderCatalog/*, NotificationDetailPolicy
--                          the table of src/provider_catalog.rs with its lookups, and
--                          src/notification_detail_policy.rs.
--   DeliverySafety/State, DeliverySafety/Hashes, DeliverySafety/Guard
--                          the data, the hashes and the operations of the guard: check_at_inner is
--                          the two hashes and then check_keys. Its children hold the theorems.
--   Ledger, Ledger/Laws    what a ledger does beside its own operations: save, load and the update
--                          of a store, over a record Backend of the two file functions.
--   ResponseSurface/Records, Surfaces, Events, Turns, Store, WellFormed
--                          the ledger of src/response_surface_ledger.rs: its data, the operations on
--                          surfaces, on inbound events and on continuation turns, its file, and what
--                          holds of every ledger. Branches behind a search are functions of what was
--                          found (create_or_return, claim_found, record_known, record_turn).
--   ResponseSurface/Policy the evaluation of src/response_surface_policy.rs, its checks in order.
--   ResponseSurface/Runtime
--                          the creation of a surface after a delivery; an `expect` on an absent
--                          value is an outcome of its own.
--   Router                 the filters of a route in src/router.rs; which reply a route allows is in
--                          ResponseSurface/Runtime.
--   BridgeBinding          src/bridge_binding_ledger.rs: its data, the threads that are bound to sessions,
--                          the rooms that are connected to projects, the proposals of rooms, the chats
--                          of the owner, and the file, which is written in place.
--   ProviderInbound/Types, Fields, Mentions, Slack, Lark, Control, Commands
--                          src/provider_inbound.rs: how the events of Slack and of Feishu and Lark become
--                          replies, commands, room events and card actions. An early return is
--                          return_unless or or_return of Exec/Results; a slice that Rust refuses is the
--                          error sliced_inside_character.
--   ProviderInbound/Claim  the two ways in which a reply is looked up and claimed.
--   ExecutionScope         src/execution_scope_guard.rs, and the tasks that hold its leases.
--
-- Conventions. Times are nanoseconds from the earliest DateTime<Utc>, so that a subtraction which
-- would go before it stops there. A value of Utc::now or Uuid::new_v4 is an argument. A lock makes
-- one call one step; a poisoned lock is a flag of the guard. A `?` on an error leaves the changes
-- before it in place, so an operation returns its state beside its error. SHA-256, serde_json and the
-- parser of URLs are parameters; of serde_json it is assumed that what it wrote is read back and that
-- the object of a route serializes, of the others nothing. A disk holds the file and says which system
-- calls would succeed; what a failed write in place leaves is a parameter.
-- Loops are structural, so that no fuel is needed, but for the one over the mentions of a message,
-- whose fuel is the number of characters; paths are those of Unix; usize and u64 values that only
-- count or copy are natural numbers.
--
-- Not modelled: the router's fan-out over the routes and providers, the submission of a claimed reply
-- to an agent, and the I/O of providers, sources, agent controllers, services and the command line.
-- The order of the setup and the resolution of environment variables are left out of the
-- configuration. The temporary file of a save is not part of the disk.
pub mod Prelude
pub mod Exec
pub mod Persist
pub mod Signal
pub mod DeliverySafety
pub mod Ledger
pub mod Config
pub mod AgentCatalog
pub mod ProviderCatalog
pub mod ProviderUrls
pub mod ResponseSurface
pub mod ExecutionScope
pub mod BridgeBinding
pub mod Router
pub mod ProviderInbound
pub mod NotificationDetailPolicy
