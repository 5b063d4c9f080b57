-- ===== src/Lib.antt =====
-- OVL keeps the reports of a vessel and checks them: a crew drafts a report aboard, saves its
-- sections, has it checked and submits it; the office receives it, remarks on it, and may invalidate
-- it. Between them stands a link that comes and goes. This library models the parts of that program
-- which decide what a report may become, which configuration a vessel gets, and what passes over the
-- link, and proves what is listed at the end.
--
-- Parts and files, with paths from the root of the repository:
--   Schema, Schema/Diff         pkg/schema/schema.go and diff.go: Schema, Field, FieldByName,
--                               DiffSchemas.
--   Validation/*                pkg/validation. Finding, Report, Policy, Regulatory, Config and
--                               Plausibility are the files of those names; FieldRules and TimeParse
--                               are fieldrules.go; Continuity, Cascade (Revalidate) and Precheck
--                               (EvaluateContinuity) are the files of those names. Each evaluateX of
--                               the source is evaluate_x.
--   FieldProject                pkg/fieldproject/fieldproject.go.
--   Domain/*                    pkg/domain: State, Event, Report (NewReport, SaveSection,
--                               RecomputeEventTime), Lifecycle (MarkReady, Submit, MarkSynced,
--                               MarkRemarked, Invalidate, NewCorrection), Message (chat.go, remark.go,
--                               invalidation.go).
--   Wire                        pkg/syncproto/convert.go: each XFromDomain is x_from_domain.
--   Office/Scope, Severities,   office/compliance: scope.go, rulesev.go, profiles.go and
--   Profiles, Cadence           cadence.go.
--   Office/FieldPolicy          office/fieldpolicy/policy.go, EffectiveFieldPolicy included.
--   Office/Vessels              office/vessels/vessel.go, ValidateIMO included.
--   Office/Enrollment           office/enrollment/enrollment.go and office/httpapi/enroll.go.
--   Office/Landing              the tables of office/store/reportlanding.go, chat.go and
--                               invalidation.go; Landing/Cascade and Landing/Push are cascade.go and
--                               pushoutbox.go of office/syncservice.
--   Office/Inbox, Inbox/Answer  office/syncservice/pullinbox.go: the streams, and PullInbox.
--   Office/Bundles              office/configbundle/assignment.go.
--   Office/Attachments          office/syncservice/attachments.go, office/store/attachmentuploads.go,
--                               and PutFile and Has of pkg/attachmentstore.
--   Vessel/Handlers             the handlers of vessel/httpapi/reports.go on the latest version of one
--                               report, markReportSynced of vessel/httpapi/sync.go, and what
--                               vessel/store/inbox.go does to a report. Handlers/Actions puts them into
--                               one type of actions, so that a history is a list.
--   Vessel/Cascade              runCascade of vessel/httpapi/reports.go over all reports of a schema.
--   Vessel/Locks                vessel/httpapi/locks.go.
--   Vessel/Outbox, Store, Sync  vessel/store/outbox.go; the report, event and chat tables of
--                               vessel/store; pushOutboxBatch and buildOutboxItem of
--                               vessel/httpapi/sync.go.
--   Vessel/Inbox, Inbox/Apply   ApplyInboxPull of vessel/store/inbox.go, up to its commit and after it.
--   Vessel/Upload               UploadAttachment of vessel/sync/attachments.go, pushAttachmentsBatch of
--                               vessel/httpapi/sync.go, Chunk of pkg/attachmentstore.
--   Sync                        a vessel and the office with a link between them: the composition of
--                               the push, which is in no single file of the source.
--   Base                        shared: tests, lists, maps, float64, texts and failing statements.
--   Tests                       concrete inputs to which the theorems are applied.
-- The children of these modules hold proofs and are named for what they prove.
--
-- How they interact: a handler loads a report, calls a method of Domain on it, and appends the event
-- that the method returns to the audit log and to the outbox. A check runs the rules of Validation on
-- the report, on the schema, on the policy and configuration that the office resolved, and on the
-- chain of committed reports. After a submit the cascade runs the continuity rules over that chain
-- again and invalidates what breaks them. The vessel pushes the oldest items of its outbox; the office
-- lands each one, records a receipt for it and acknowledges it; the vessel deletes what was accepted
-- and marks a report as synced. A retransmitted item is known by its receipt. In the other direction
-- the vessel pulls what lies behind its cursors, and moves them on. An attachment goes apart from
-- these: the office names the chunks it lacks, the vessel sends them, and the last one assembles them.
--
-- Abstractions:
--   float64 is a type with operations (Base/Floats), a parameter of everything that computes with
--   numbers; no law of it is assumed. Times are nanoseconds from the start of year 0, in UTC, and do
--   not wrap around. A Go map with string keys is an association list in the order of insertion; where
--   the source ranges over a map, that order is one that Go may choose. sort.Slice is a parameter
--   (SortSlice) that agrees with the stable sort where no two event times are equal. The clock,
--   new identifiers and the answer of the BDN lookup are arguments. A method that changes its receiver
--   returns the new value; a write to a nil map is the result `none`, and the handler's `panicked`.
--   All recursion is structural, so there is no fuel.
--   Failing stores: Base/Faults has a budget, the number of statements that still succeed, where `none`
--   is a store that never fails; a failing statement rolls its transaction back. Where a theorem only
--   needs that something fails, a flag says so (`halts`, `readable`). Rows that an ORDER BY does not
--   order stand as in the table. Numbered rows are inserted one
--   after the other. The link is a sequence of pushes of which the request, or the answer,
--   is lost. An `int` is its 64-bit pattern and an `int32` its 32-bit one; the structures of protobuf
--   are a parameter (StructPb), with the law that what was encoded decodes to itself; sha256 and
--   the comparison of argon2id are parameters of which nothing is assumed.
--
-- Not modelled: the text of SQL, JSON and the bytes of protobuf, HTTP sessions, the stream's
-- transport, the composing and publishing of config bundles, the content of user and restore
-- commands, the revocation of credentials, users and sessions, CSV output, the sorted snapshot of
-- the locks and the channels of their subscribers, the handlers that create and that delete a
-- report, the loading of schema documents. They are input and output, calls of libraries, or parts
-- of the program that no file here covers.
pub mod Base
pub mod Schema
pub mod Validation
pub mod FieldProject
pub mod Domain
pub mod Office
pub mod Vessel
pub mod Wire
pub mod Sync
pub mod Tests
