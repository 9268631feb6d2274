-- ===== src/Lib.antt =====
-- A model of ticket-bot, the program that takes a ticket of a tracker through a pipeline of agent
-- steps to a pull request, and proofs about it. Paths are from the repository's root.
--
-- The parts of the program and their files:
--   Predicate   ticketbot/core/predicate.py: the `when:` language. Predicate/Lexer is `_tokenize`,
--               Predicate/Parser and Parser/Operands `_Parser`, Predicate/Lookup `_lookup_path`,
--               Predicate/Compare the comparisons, Predicate/Nodes `_eval_node`, Predicate/Rules
--               `evaluate`, `evaluate_mapping` and `evaluate_any`.
--   Core        ticketbot/core/run.py and workitem.py: the run, its step results, the work item;
--               Core/Json is `to_dict` and `from_dict` of a run and of a work item, Core/Store `RunStore`, Core/Slug
--               `slugify`, Core/Templating ticketbot/core/templating.py, Core/Banner `render_banner`
--               of banner.py and `_work_item_text` of ticketbot/engine/orchestrator.py, Banner/Facts
--               `source_fact` and `facts_from_profile` of banner.py. Core/FrontMatter is what files
--               and role prompts have in front.
--   Config      ticketbot/config: Config/Dotenv is dotenv.py, Config/Merge `deep_merge`,
--               Config/Extends `load_profile_dict` and Config/EnvRef `expand_env` of loader.py,
--               Config/Redact the `Redactor` of redact.py, Config/Schema blocks of schema.py.
--   Engine      ticketbot/engine: Engine/Budget, Gates, Protocol, Context, Pipeline (with
--               Pipeline/Load, the checks of a file) and Selector are the modules of that name.
--               Engine/Step and its children are `Orchestrator._run_step` with its hooks,
--               Engine/Loop is `_run_pipeline_inner` and `_begin_fresh_run`. Engine/Lock is
--               ticketbot/engine/locks.py, Lock/Interleaved several processes at one lock, with and without
--               `force`, Engine/Entry `run_once`, `resume` and a sweep of `poll`, with what other
--               processes make of the locks meanwhile.
--   Models      ticketbot/models/base.py: messages, tool calls, usage and prices.
--   Executors   ticketbot/executors: Executors/Paths is the path jail of tools.py, Executors/Edits the
--               edits of texts, Executors/Tools the tools and `dispatch`, Executors/Api the loop of
--               api_loop.py, Executors/Snapshots the list of files that a step has written.
--   Adapters    Adapters/Adf is `adf_to_text` of ticketbot/adapters/sinks/adf.py, Adapters/Markdown its
--               `markdown_to_adf`, Adapters/Files ticketbot/adapters/sources/file.py.
--
-- The orchestrator selects a pipeline for a work item, loads it, and runs its steps in order. A step
-- evaluates its `when:`, asks the gates, sends its prompt to an executor, reads the executor's text
-- for questions and deferred work, commits, and records a result in the run, which is saved after
-- every step. Engine/World holds the state of that: the run, its last saved form, the budget, the
-- work item, and an outside state `X`. An action takes the state and returns a result or an
-- exception with the new state, so what was written before an exception stays. Engine/World/Triples
-- has the partial correctness of actions, Engine/World/Keeps the predicates on the run that actions
-- keep. Adapters, executors, files, clocks, the rendering of prompts and commit messages and the
-- reading of YAML and JSON are the fields of Engine/Env, functions on `X`.
--
-- An executor of the kind `api` asks a model, runs the tools that it calls, and asks again:
-- Executors/Api keeps the messages, Executors/Tools what the tools change. The file system,
-- processes and the provider are functions on an outside state, of which a proof asks no more than
-- its hypotheses say. For the engine an executor is one such function.
--
-- Texts are lists of code points, and the tests of characters are those of ASCII. The numbers of a
-- predicate are a parameter with their operations, of which `float(n)` may overflow. Money is in
-- micro-dollars, time in milliseconds. The messages of exceptions are cut to their constant parts.
-- The tokenizer runs on as much fuel as there are characters, each round reading one; the parser on
-- six times the tokens and six, since at most six of its calls stand between two tokens that are
-- read; a list operand on twice the tokens and one, two calls to an element. The chain of
-- `extends:` has as much fuel as there are files to read and one more, since a file that is met
-- again ends it; the API loop has `max_iterations` rounds, as in the program; the loop over the
-- lines of a Markdown text has one round more than lines, since each round takes a line. The
-- reading of a document goes down seven levels, as the program does.
--
-- Not modelled: the instantiation of adapters, the dry run, the redacted configuration that a run
-- saves, the warnings on `produces`, the attachment of screenshots to a comment, logging and printing;
-- the descriptions of tools, the parsing of YAML and JSON, the walk of a directory tree, the
-- clients of models, trackers, repositories and runtimes. The engine's saving is taken not to fail.
pub mod Prelude
pub mod Predicate
pub mod Core
pub mod Config
pub mod Models
pub mod Executors
pub mod Adapters
pub mod Engine
pub mod Tests
