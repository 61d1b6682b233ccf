-- ===== src/Lib.antt =====
-- A model of the review bot with the theorems that make it correct: its queue, its reviews and comments,
-- its configuration and its demo.
--
-- The bot reviews pull requests. A webhook enqueues or updates a ticket (review_queue/store.py), one
-- dispatcher claims the tickets one by one (review_queue/dispatcher.py), runs the review and ends
-- or schedules the ticket. The settings it reads are cached once per claimed ticket by the modules
-- beside it, from rows that the start of the bot fills and checks and that the dashboard edits.
--
-- Files, and the code they model:
--   Prelude, Prelude/*     names and lemmas that the parts share
--   Number, Number/Natural floats as a type with the laws used; natural seconds as its instance
--   Status, Problem        the status column; what the `problems` functions report
--   Tickets, Tickets/*     the tickets table of review_queue/store.py. Rows: the row and SQL on lists;
--                          Enqueue: enqueue_or_update; Claim: claim_next_due and the notice query;
--                          Finish: finalize_review, discard_skipped_ticket, cancel_ticket,
--                          migrate_repo_rename, recover_on_startup; Invariant, Invariant/*,
--                          Queueing, Search, Push, Push/*, Lifecycle: the theorems
--   Cooldown, Cooldown/*   review_queue/cooldown_config.py and effective_cooldown,
--                          next_cooldown_level, _due_after_cooldown of review_queue/store.py
--   Tuning, Tuning/*       review_queue/dispatcher_tuning_config.py, _jitter and compute_backoff of
--                          review_queue/dispatcher.py
--   UsageCap, UsageCap/*   review_queue/usage_cap_config.py, usage_bucket_start, record_review and
--                          get_key_usage of review_queue/store.py
--   Webhook, Webhook/*     webhook.py and hmac_verify.py: signature, delivery cache, guards,
--                          enqueue and cancellation
--   Diff, Diff/*           _annotate and (Capped) annotate_and_cap of diff_utils.py
--   Comments, Comments/*   the bot's comment and its footnotes, of github_app.py. Footnotes: stripping
--                          what was appended; Upsert: which comment is written
--   Formatting, Formatting/*  formatting.py and the envelopes of specialists/schemas.py. Bodies: whole
--                          comments; Escape, Rows: the tables; Notes: the footnotes; Marked: the marker
--   Orchestrator           providers/validate.py and specialists/base.py
--   Orchestrator/Attempt   attempt_review and run_review of orchestrator.py; Calls, Waits, Merging: the
--                          theorems
--   Config                 the runtime_config row of review_queue/store.py; Slots: its slot_config table
--   Config/Backfill, Gates init_pool's filling of the row with the defaults of
--                          review_queue/runtime_config_defaults.py; lifespan of main.py
--   Config/Views, Keyed, Filled, Boot, Fresh  the theorems about them
--   Panel, Panel/*         _apply_config_patch of dashboard/environment.py; Kept, Reports: the theorems
--   Panel/Arming           _arming_problems of dashboard/environment.py, and `problems` of
--                          providers/model_check.py; its children: the theorems
--   Panel/SlotPatch        _apply_slot_config_patch of dashboard/environment.py
--   Demo, Demo/*           demo/store.py; Finish: the ends of a ticket; Caps, Sessions: the theorems
--   Dispatcher             the process state and the answers of one step; the caches of providers/
--   Dispatcher/Step        process_next_due of review_queue/dispatcher.py, stage by stage
--   Dispatcher/Notices     post_pending_notices of review_queue/dispatcher.py
--   Dispatcher/Rests, Keeps, Retry, Blocks, Wait, Swept   the theorems about it
--   */Tests                runs on concrete values, and each theorem at one of them
--
-- How the code corresponds: a database function is one transaction, a function from the table (a
-- list of rows and the next identity value) to the table. Locks and concurrent transactions are
-- parameters: which rows another transaction holds at a claim, and what others commit between the
-- SELECT and the INSERT of an enqueue or while a review runs. Instants are microseconds; ISO-8601
-- UTC texts compare as the instants do. An exception is `none`, or an end of the step of its own.
-- Texts of comments are lists of code points. Fuel occurs only where a number is written in decimal,
-- with the number itself as fuel, which is enough because every digit divides it by ten; all other
-- loops are over rows, lines or characters. The answers of a provider are a function of the number of
-- the call and the prompt; what a review does outside the process is a list of effects.
--
-- Durations and instants are inside the ranges of timedelta and datetime; the power of the cooldown may
-- overflow, and the backoff is read for at most 1024 attempts.
--
-- Not modelled: the texts of logs, the connection pool and the schema set-up, failures
-- of the statements on the tickets table inside a step (the outcome of the review is a parameter of
-- the step), the adapters of the providers, the parsing of JSON, the
-- dashboard but for its configuration requests, the routes of the demo and the scripts.
pub mod Prelude
pub mod Number
pub mod Status
pub mod Problem
pub mod Cooldown
pub mod Tickets
pub mod Webhook
pub mod Comments
pub mod Formatting
pub mod Orchestrator
pub mod Config
pub mod Demo
pub mod Panel
pub mod Diff
pub mod Tuning
pub mod UsageCap
pub mod Dispatcher
