-- ===== src/Lib.antt =====
-- Deep Foundry: coworkers, their background tasks, workflows, teams and votes. The program is a Django
-- service (services/app): `core` keeps the rows and the rules, `ai` runs models and tools, and a task
-- queue calls `execute_background_task`, `advance_workflow_run` and `advance_agent_team_run` until they
-- need no more polling. What binds these parts is consent: a tool runs only if the organization's
-- rules, the coworker's profile and a person's approvals let it.
--
-- Files and the code they model (paths in the repository):
-- - Base and its children: shared lists, dicts, integers, texts and sorted queries. Json: the values of
--   the JSON columns, with Python's `==`, truth value and `get`.
-- - Permissions: core/permissions.py and the role capabilities of core/v3_services.py. A lookup of a
--   row is `find` on the table; not found and permission denied are the two errors.
-- - Policy: `resolve_org_action_policy` and `resolve_approval_policy` of core/interface.py. The query's
--   order is a sort by priority and time. `Decimal` of a text is a parameter.
-- - Workflow: core/v2_engine.py (`advance_workflow_run`, `_fail_workflow_run`). State holds the rows of a
--   run; Engine and ToolStep the four kinds of step; Advance the turns and their loop; Effects the
--   relation between a run and what one turn makes of it, which Turns shows complete; Induction the
--   induction on turns; Consent, Measure and Records what follows. Definition and Started model
--   `validate_workflow_definition` and `start_workflow_run` of core/v2_services.py, Decisions and Decided
--   the checkpoint decision of core/v2_views.py and `decide_approval_request` of core/interface.py,
--   Verdicts and Resumed `_decide_approval_request` of core/chat_views.py on the steps of a run.
-- - TaskEngine: ai/task_engine.py (`execute_background_task`) with `claim_task_execution` and
--   `report_task_status` of core/interface.py. Calls holds one tool call, Loop the iterations, Effects
--   the relation for a call, Induction the induction on turns; Consent, Once and Endings what follows.
-- - Teams: `create_agent_team` of core/v2_services.py and, in Engine, `advance_agent_team_run` of
--   core/v2_engine.py; Created, Formed and Progress what
--   follows.
-- - Consensus: the votes of core/v4_services.py. Tally holds `finalize_consensus` and
--   `record_consensus_vote_from_task`; Scores, Laws and Parsing what follows.
-- - Billing: core/billing.py; Laws is about the default plan, Limits about the checks.
-- - Marketplace: `scan_listing_version` and `complete_marketplace_order` of core/v3_services.py; in
--   Installs `install_dependencies` of that file and `install_listing` of core/v2_services.py, with
--   Walks, Dependencies and Depth on the recursion; in Skills `_declared_tool_rows`,
--   `attach_installed_skill` and the status that `publish_listing_version` gives; in Granted what the
--   attachment of a skill makes of the tools.
-- - Proposals: `create_capability_proposal` and `review_capability_proposal` of core/v4_services.py.
--   Requests holds the steps, Changes what a step does, Vouching and Once what every reachable store has.
-- - Conflicts: the memory conflicts of core/v4_services.py. Pairs, Detection and Genuine are about
--   `detect_memory_conflicts`.
-- - ModelRouter: ai/model_router. Calls holds router.py, Cloud and Streams the adapter of DeepSeek,
--   Adapters the two adapters and factory.py; Logged, Fallback, Wire, Assembled and Chunks what follows.
-- - WebReader: the URL checks of ai/web_reader.py and, in Fetch, its requests and redirects; Guarded and
--   Connections what follows.
-- - Crawler: `crawl_website` of ai/web_crawler.py; Visits what a pass does, Polite and Ends what follows.
--
-- How state is modelled: a function that writes rows takes them as a record and returns them changed.
-- An exception that leaves a function is a value of its result (`raised`, `exception`, `none`), and the
-- rows written before it stay written, except inside a transaction. Other processes are not
-- interleaved: a theorem is about one call on the rows as it finds them. Ids are numbers, and a
-- workflow step's place stands for its id. Models, tools, clocks, casts of texts to numbers and JSON
-- printing are parameters, as records of functions (`Env`, `Worker`, `Python`). Audit logs are kept
-- where a task or a run writes them, by their action.
--
-- Fuel: `advance_workflow_run` calls itself; the model makes (n + 1) * (n + 2) turns for n steps. Each
-- turn that goes on completes an open step or moves past a completed one, so that is enough. The crawl
-- has a pass for each lead of its queue and for each link that as many pages as it may have can add;
-- the recursion of `install_dependencies` a level for each version of the marketplace, one for a
-- version asked for that is none of them, and one in which a cycle is found. A fetch follows redirects
-- by their number that is left. The task engine's loop has the source's own bound,
-- MAX_TASK_ITERATIONS, as an argument.
--
-- Not modelled: the web and desktop applications, the SDK, views and serializers beyond the decisions
-- above, accounts and encryption, the extraction of text from HTML and other documents, the browser
-- and search services, research, the chat orchestrator, Telegram, migrations and settings. Of the
-- modelled files, voice sessions, bundles and compliance exports, new team versions, what a capability
-- pack makes at its installation, and the calls that chats make are left out. A network, a name
-- resolution, a clock or a robots policy is a function that a definition takes, and the theorems are
-- about every such function. A crawl's robots.txt, its sitemaps and the redirects that its page reader
-- follows are behind such a function. The exception of a domain rule that idna refuses is left out of
-- the crawl.
pub mod Base
pub mod Billing
pub mod Conflicts
pub mod Consensus
pub mod Crawler
pub mod Json
pub mod Marketplace
pub mod ModelRouter
pub mod Permissions
pub mod Policy
pub mod Proposals
pub mod TaskEngine
pub mod Teams
pub mod WebReader
pub mod Workflow
