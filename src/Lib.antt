-- ===== src/Lib.antt =====
-- Verification of kai, the chat agent of this repository, and of the cockpit that runs its bots.
--
-- The program's parts that are modelled, and how they meet:
--
-- * Recurrence (src/kai/agent/recurrence.py) computes the next occurrence of a time. Calendar is what
--   it and the scheduler use of Python's datetime and calendar: fields, ordinals, weekdays, lengths of
--   months, and offsets that raise past the year 9999. advance_weekly and advance_monthly keep their
--   names; a loop is recursion on the number of its rounds, and the loop over months runs on fuel, the
--   number of months to roll, which is more than it needs.
-- * Tasks (src/kai/agent/scheduler.py): Task and its dict form, compute_next_due, TaskStore
--   (Tasks/Store.antt) with the file that it saves to, TaskScheduler (Tasks/Scheduler.antt) and the
--   tools of build_task_tools (Tasks/Tools.antt). The scheduler polls the store with pop_due and runs
--   each fired task with EXECUTING_TASK set, the field executing of World; the tools, which a fired
--   task may call, read that flag and change the same store. A method of the store holds its lock from
--   its first read to its last write and is one function of the state.
-- * History (src/kai/agent/history_store.py, and the writers of messages in src/kai/agent/core.py):
--   the bounded cache of conversations, trimming, the reading of its files at start (History/Load.antt),
--   the summary for listings (History/Conversations.antt), and the flush (History/Flush.antt). A flush takes a
--   snapshot under the lock, writes without it, and ends under the lock; flush_with_change is a flush
--   with a change of another task between these steps.
-- * ActionParsing (src/kai/agent/action_parsing.py): the cleaning of a model's text and the recovery of
--   fields from a text that is no JSON.
-- * ToolLoop (src/kai/agent/tool_loop.py): the rounds of one turn. It calls ActionParsing for the text
--   of the model. The rounds are recursion on max_tool_rounds, the bound of the code.
-- * Runs (src/kai/runs.py): the registry file of one bot instance.
-- * Deployments (src/kai/cockpit/deployments.py, deployment_process.py, deployment_helpers.py): the life
--   of a bot, which it finds by the registry file of Runs.
-- * Edits (src/kai/cockpit/deployment_edits.py, and edit of src/kai/cockpit/deployments.py): the edits of
--   a deployment's fields, with a record of the fields that they touch, on the row as the session holds
--   it; what SQLAlchemy stores of the settings at the commit is an argument, Session.
-- * Escalations (src/kai/agent/tools/escalate.py): EscalationStore with the file that it saves to, and
--   EscalationState (Escalations/State.antt), whose two tools record an escalation and block a contact.
-- * Webhooks (src/kai/cockpit/connections/webhooks.py and cockpit/routes/connections/webhooks.py of
--   src/kai): the nonce store (Webhooks/Nonces.antt), the verification and parsing of a request
--   (Webhooks/Resend.antt), and the route that sends a message to one bot (Webhooks/Ingress.antt). A
--   request reads the clock up to three times, which Clock names; times are microseconds, and
--   ingest_all is any sequence of requests.
-- * BotServer (src/kai/bots/webhook.py): the signed routes of a bot, the other end of that connection.
-- * Email (src/kai/bots/email/__init__.py, bots/email/attachments.py and config/filters.py of src/kai,
--   and valid_recipient of src/kai/agent/tools/email.py): the email bot, its replies, its operator
--   (Email/Operator.antt), its blacklist, which the blacklist tool of Escalations changes, and the
--   download of attachments (Email/Attachments.antt). A download is recursion on the number of its
--   requests, MAX_REDIRECTS + 1, the bound of the code.
-- * AgentCore (src/kai/agent/core.py and src/kai/agent/goal.py): the tool registry, the goal, and a
--   turn (AgentCore/Chat.antt), which reads and writes History; the loop of ToolLoop is its argument.
-- * Templates (src/kai/templates/resolver.py): the tools of a deployment, and the merge of configs.
-- * Csrf (src/kai/cockpit/csrf.py): the token check before the forms of the cockpit.
--
-- Common holds the shared names: Boolean tests, lists, texts, dictionaries in insertion order, stable
-- sorting (Common/Sort.antt), stores that are saved to a file (Common/Persisted.antt, whose Codec both
-- stores of the agent fill), Http, an answer or an error status, and Try, a value or an exception.
-- Python's integers are ℕ where the code has no negative ones, and a subtraction is written where it
-- cannot pass 0 or where 0 is what the code then has.
--
-- What is not code of the repository is an argument: the clock, random ids and tokens, the model, the
-- tools' own work, the validation by pydantic, digests and base64, JSON, DNS, the mail server, HTTP
-- services and their documented answers, the rows of the database, the operating system's answers on
-- processes and files, and the parser of dates that a user writes (parse_when, whose text forms come
-- from datetime). A change between the steps of a flush is modelled in History/Flush.antt. The stores
-- hold their locks over each operation. A webhook request, an email and a turn are each one function
-- from its start to its end: what another one does while they await is not modelled.
--
-- Not modelled: the web routes other than those above, the command line, the base class and the start
-- of the bots, the clients of HTTP services, databases and the document store, the creation and
-- deletion of deployments, the environment of a spawned bot, resolve_config, which pydantic validates,
-- and settings.
pub mod Common
pub mod Calendar
pub mod Recurrence
pub mod Tasks
pub mod History
pub mod ActionParsing
pub mod ToolLoop
pub mod Runs
pub mod Deployments
pub mod Edits
pub mod Escalations
pub mod Webhooks
pub mod Email
pub mod AgentCore
pub mod Templates
pub mod BotServer
pub mod Csrf
