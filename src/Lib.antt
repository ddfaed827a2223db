-- ===== src/Lib.antt =====
-- Verification of the core of Zoen, an assistant for personal and team workspaces.
--
-- The program keeps its state in PostgreSQL and runs as TypeScript on Node.js. Each part that is
-- modelled here is a set of functions over tables: a table is a list of rows, an UPDATE with a
-- condition is `update_where`, a query is `select` or `find_first`, and a call is a function that
-- takes the tables and gives what the call returns or throws with the tables that it leaves
-- (Base/Tables.antt). A call of one statement or one transaction is atomic, and calls of different
-- processes interleave as any sequence of such steps. A call that reads and writes apart, without
-- a transaction around both, is one function too, which says what it does when it runs alone; the
-- modules named Overlap split it, so that other calls run between its read and its write. A call
-- that reads its answer in a statement after its write gives what the tables hold just after the
-- write. UUIDs and lease tokens are numbers; a counter in the tables stands for the source of
-- fresh ones. An instant is a number of milliseconds from the epoch, and the clock is an argument.
--
-- Schedules (db/services/scheduled-agent-jobs.ts, db/services/scheduled-agent-run-leases.ts,
-- shared/schedules, db/schema/schedules.ts)
--   Schedules/Timing.antt     scheduleTimingSchema, computeNextRun and computeLatestRun, over the
--                             time zone database of the platform, a parameter (Schedules/Platform)
--   Schedules/Calendar.antt   Date.UTC and the getUTC methods of JavaScript
--   Schedules/Outcome.antt    scheduledRunOutcomeSchema
--   Schedules/Rows.antt       the tables scheduled_agent_jobs and scheduled_agent_runs
--   Schedules/Records.antt    parseJob, parseRun and the inputs of the calls
--   Schedules/Jobs.antt       create, list and update of jobs
--   Schedules/Dispatch.antt   materializeDueScheduledAgentRuns, claimReadyScheduledAgentRuns
--   Schedules/Worker.antt     the calls by which a worker drives a run under its lease token
--   Schedules/Input.antt      the calls by which a run waits for input and is resumed
--   Schedules/Report.antt     the calls that deliver the report of a run
--   Schedules/Lifecycle.antt, Schedules/Invariant.antt and below: the invariant of the tables
--   Schedules/Steps.antt      the calls that write, each run alone
--   Schedules/Steps/Overlap.antt    any sequence of calls, by any number of processes, also where
--                             they overlap
--   Schedules/Steps/Overtaken.antt  an update that another call overtakes
-- The dispatcher of agent/schedules/dynamic.ts makes these calls once a minute; a worker's calls
-- carry the lease token that the claim drew. updateScheduledAgentJob and releaseScheduledAgentRun
-- read a row and later update it, with no transaction around both: the update asks for the id
-- alone, so the rule that exactly the active jobs have a next occurrence holds where calls run one
-- after the other (`serial`), and not where they overlap; the release asks for the lease token
-- again. Between the two statements of these calls any other call may run in Overlap. Instants lie
-- at least 15 days after the epoch, so that the subtraction of days does not stop at 0. The loop
-- over 15 days has 15 rounds, as in the source, and the loop over years has a round for each 365
-- days. Left out are the foreign keys, the check on an empty conversation id, and dates beyond the
-- range of JavaScript's Date.
--
-- Quotas (server/operations/quotas.ts, shared/billing/plans.ts)
--   Quotas.antt               admitQuota, reserveQuota and settleConcurrentTurns
--   Quotas/Plans.antt         the limits of the plans
-- The input of admitQuota may hold numbers that are no natural numbers: such a number is `other`,
-- which the decoders refuse. The texts of failure messages and the catalogue of prices are left out.
--
-- Messaging (server/messaging, db/schema/messaging.ts, db/schema/channels.ts)
--   Messaging/Payload.antt    the schemas of model.ts and canonicalPayload
--   Messaging/Rows.antt       the tables, the receipts and the errors
--   Messaging/Queue.antt      store.ts: the inbox and the outbox, which one function serves
--   Messaging/Resolve.antt    resolveUncertain of store.ts
--   Messaging/Responses.antt  input-response.ts
--   Messaging/Service.antt    index.ts: the checks of the inputs, and prepareInboxHandoff
--   Messaging/Lifecycle.antt, Messaging/Invariant.antt and below: the invariant of the tables
--   Messaging/Steps.antt      any sequence of calls, and changes of the identities between them
--   Messaging/Order.antt, Messaging/Replay.antt, Messaging/Reconcile.antt: what single calls do
-- A channel accepts the messages of its users into the inbox, which the agent's handoff claims,
-- and the agent's answers are put into the outbox, which the channel's sender claims. A
-- transaction that fails leaves the tables as they were (`with_transaction`). `next_uuid` stands
-- for randomUUID and `next_sequence` for the bigserial columns. SHA-256 and the text of a UUID are
-- the parameter Digest. A call takes an instant for each of its statements that reads
-- clock_timestamp(), and claim one for each of its three reads, two of which are in one statement.
-- Rows that other transactions have locked are the arguments `locked_identity` and `locked_row`.
-- Left out are the checks of the form of identifiers, of excess properties and of foreign keys,
-- and the failures of the database itself.
--
-- Organizations (db/services/organizations.ts, db/services/organization-invites.ts,
-- db/services/organization-audit.ts, shared/identity/org-rbac.ts, shared/identity/org-sso.ts)
--   Organizations/Rows.antt     the tables and the errors
--   Organizations/Rbac.antt     org-rbac.ts: who may give which role
--   Organizations/Sso.antt      org-sso.ts: who may accept an invitation
--   Organizations/Members.antt  organizations.ts
--   Organizations/Invites.antt  organization-invites.ts, and the receipts of organization-audit.ts
--   Organizations/Steps.antt    the calls, each run alone
--   Organizations/Overlap.antt  any sequence of calls, overlapping ones among them
--   Organizations/Roles.antt    the roles in personal workspaces and in those of companies
--   Organizations/Access.antt, Organizations/Acceptance.antt: who changes members, and how an
--                               invitation makes one
-- The read that a call makes first and its write are one step in Organizations/Steps.antt, though
-- the source does not put them into one transaction; Organizations/Overlap.antt has the writes to
-- the invitations as steps of their own, on the strength of whatever was read before. A receipt is
-- appended after the write, and one that is refused leaves the write, as in the source.
-- toLowerCase is a parameter. The texts of failures, the listing of the receipts and foreign keys
-- are left out; a write fails only where its key is taken.
pub mod Base
pub mod Schedules
pub mod Quotas
pub mod Messaging
pub mod Organizations
