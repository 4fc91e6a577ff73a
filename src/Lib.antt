-- ===== src/Lib.antt =====
-- Murano's server: the tables of environments, sessions and tasks, the handlers of the API that work
-- on them, and the endpoint that takes the engine's results.
--
-- An environment has a description, which only the engine's results change. A user opens a session,
-- edits the session's copy of the description through the services' calls, and deploys the session:
-- its model is sent to the engine, and the session is DEPLOYING (or DELETING) until the engine's
-- result closes it and gives the environment a new description and the next version. A session holds
-- the version at which it was opened, and is valid while the environment has no later one.
--
-- Base: shared names, tests, lists, numbers, and results of code that may raise.
-- Json: the values that JSON columns and bodies hold, with Python's operations on them. A dict is an
--   association list in insertion order. Json/Merge is merge_lists and merge_dicts of
--   murano/dsl/helpers.py.
-- Text: the functions on texts that paths need, and validate_quotes of murano/common/utils.py.
-- Server: the rows (murano/db/models.py, murano/services/states.py), the queries, and the code that
--   reads and writes them: a call takes the tables, and returns an answer or an exception with the
--   tables as they are then. Server/Sql holds what is left to the database: the order of order_by up
--   to ties, and the row that first() takes; its laws are those of SQL. Server/Rules and Server/Atomic
--   are proof rules for such code, Server/Sound is the invariant of the session table.
-- Sanitize: murano/common/helpers/token_sanitizer.py.
-- Traverse: TraverseHelper of murano/common/utils.py (get, update, insert, extend, remove).
-- Sessions: murano/db/services/sessions.py (get_sessions, create, validate).
-- Environments: murano/db/services/environments.py (get_status, remove, get_environment_description,
--   save_environment_description, delete).
-- Services: murano/db/services/core_services.py (get_data, post_data, put_data, delete_data).
-- Templates: murano/db/services/environment_templates.py, and the functions of core_services.py that
--   work on templates.
-- Tasks: murano/services/actions.py and murano/db/services/actions.py.
-- Deploy: the functions deploy of the session and environment services.
-- Access: check_env, check_session and verify_session of murano/utils.py (verify_env is
--   Api/Services.verify, and verify_env_template stands in Api/Applications).
-- Results: process_result of murano/common/server.py.
-- Reports: report_notification of murano/common/server.py and murano/engine/system/status_reporter.py,
--   whose statuses process_result counts.
-- Api: handlers of murano/api/v1 (sessions, environments, actions, services, in Api/Applications
--   the template_applications, in Api/Templates the handlers index, show and delete of templates), and
--   the relation of their calls.
-- Macros: the control flow of MuranoPL (murano/dsl/macros.py, murano/dsl/exceptions.py) over a host,
--   which evaluates expressions and keeps the contexts. A run ends with a signal: the end of the code,
--   a return, a break, a continue or an exception.
-- Policy: the policy rules of a model and their transitive closure (murano/policy/congress_rules.py),
--   with parse_type_string of murano/dsl/helpers.py in Text/TypeName. The package loader is an
--   argument.
-- Types: the classes of MuranoPL (murano/dsl/murano_type.py), with traverse of murano/dsl/helpers.py.
--   A class is a tree of its parents, as these exist before it; the queue of a search gets a unit of
--   fuel for each path up to a class, which is as many as the classes that it can hold. The loop of
--   _remap_package has two units for each version: a turn passes over one or deletes one.
-- Engine: TaskExecutor of murano/common/engine.py, which runs a task and gives the result that
--   process_result takes. The interpreter, the package loader, keystone and the policies are
--   arguments.
-- Garbage: the destruction of objects (murano/dsl/object_store.py, murano/dsl/executor.py) and the
--   subscriptions to it (murano/dsl/principal_objects/garbage_collector.py). The topological sort
--   recurs on fuel, as its depth is at most the rank of an object where the subscriptions have one.
-- Instances: murano/db/services/instances.py, with the endpoints track_instance and untrack_instance of
--   murano/common/server.py. The table is a list beside the server's tables.
-- Patch: the changes of a package in a request, JSONPatchDeserializer of murano/common/wsgi.py. The
--   validation of a value against a schema is an argument.
-- Samples: concrete rows, at which the theorems are applied, and a database that meets the laws.
--
-- Times, new ids and what the policy engine answers are arguments. Numbers have no bound, as in
-- Python. The recursion is structural, but for a few places. The transitive closure has one round for
-- each pair of nodes, and one more, as each round but the last adds a pair. The text of a number uses
-- the number itself as fuel, which is at least the count of its digits. A `While` loop of MuranoPL, and a
-- `For` loop over an iterator, may run for ever, so their turns use fuel, and a run that has too little
-- has no result, like one that evaluates an expression which does not end. The messaging library, which
-- takes the engine's tasks, is an argument too, and may raise.
--
-- Each call is one step: the transactions of concurrent calls are not interleaved inside a call.
-- Not modelled: the rest of the web framework, the package catalogue and loader, the creation,
-- update and cloning of templates, the creation of environments with their networks, the policy enforcer, the rest
-- of the MuranoPL interpreter (objects, expressions, contracts), the engine's agents, the service broker
-- API, migrations and commands. The request counters, log messages and notifications that the handlers
-- send besides are left out too.
pub mod Base
pub mod Json
pub mod Text
pub mod Traverse
pub mod Server
pub mod Sanitize
pub mod Sessions
pub mod Environments
pub mod Garbage
pub mod Services
pub mod Templates
pub mod Tasks
pub mod Deploy
pub mod Engine
pub mod Access
pub mod Results
pub mod Reports
pub mod Macros
pub mod Api
pub mod Policy
pub mod Types
pub mod Instances
pub mod Patch
mod Samples
