-- ===== src/Lib.antt =====
-- AZM customer support CRM: a model of the program's own rules, and what was proved of it.
--
-- The program is a web application of several parts. This development models these:
--   * Tickets (apps/tickets): Tickets/Model.antt has the rows and the transition table of
--     models.py; Tickets/Lifecycle.antt the moves between statuses of services/lifecycle.py;
--     Tickets/Visibility.antt the message queries of services/visibility.py; and
--     Tickets/Creation.antt the first save of a ticket, which gives it a reference;
--     Tickets/Desk.antt is what staff do with tickets, in views.py.
--   * Chat (apps/chat): Chat/Redis.antt is `FakeRedis` of services/redis_client.py. The services of
--     the same folder stand over it: Chat/Presence.antt, Chat/Queue.antt, Chat/Liveness.antt,
--     Chat/Pending.antt, Chat/Unread.antt, Chat/Messaging.antt and Chat/Assignment.antt have the
--     names of their files; services/lifecycle.py is in Chat/Serving.antt (who is given a visitor,
--     and the loop of `connect_next_waiting`) and Chat/Lifecycle.antt (`end`, which is `finish`
--     here, `requeue`, and the closing of a desk), and its `start` in Chat/Starting.antt, with the
--     visitor's token of Chat/Tokens.antt (services/tokens.py). Chat/Sweeps.antt is tasks.py of the
--     same app, and Chat/Transcript.antt services/transcript.py. Chat/Model.antt has
--     chat/models.py, the groups and the frames, and Chat/Settings.antt the settings that chat
--     reads.
--   * The sockets of chat (apps/chat/consumers): Chat/Sockets.antt is what base.py gives all three,
--     with Chat/Sockets/Wire.antt (`parse`) and Chat/Sockets/Limiter.antt (`RateLimiter`);
--     Chat/Sockets/Visitor.antt, Chat/Sockets/Agent.antt and Chat/Sockets/Supervisor.antt are
--     visitor.py, agent.py and supervisor.py. Chat/Sockets/System.antt is the whole chat: a step
--     for every call that a socket, a sweep or a view can make. Chat/Sends.antt and
--     Chat/Sockets/Clean.antt are about what is published, for every service and every socket.
--   * Requests from outside (apps/intake, apps/customers, apps/messaging): Intake/Office.antt has
--     the rows; Intake/Matching.antt and Intake/Linking.antt are services/matching.py and
--     services/linking.py of customers, and Intake/Timeline.antt is services/timeline.py;
--     Intake/Opening.antt is services/creation.py of intake and `raise_request` of the portal;
--     Intake/References.antt has the two patterns, and Intake/Inbound.antt the rest, of
--     services/inbound.py of messaging.
--   * E-mail to customers (apps/messaging): Mail.antt is the two sending tasks of tasks.py, with
--     services/outbound.py. Files (apps/attachments): Attachments.antt is services/validation.py
--     and services/uploads.py.
--   * The customer portal (apps/portal): Portal/Model.antt has the accounts and links of models.py;
--     Portal/Tokens.antt, Portal/Registration.antt and Portal/Passwords.antt the services of those
--     names (`create_account` of models.py is in the second); Portal/Requests.antt is
--     services/tickets.py, save for `raise_request` (above); and Portal/Auth.antt is auth.py.
--   * The core (apps/core): Core/Sequence.antt is models_sequence.py, the references.
--     Core/Text.antt has the operations of texts, Core/Lines.antt a text's lines, Core/Newest.antt
--     the sort by moments, Core/Decimal.antt the digits of a number and the format `06d`, and
--     Core/Logging.antt the filter of the log, logging.py.
--   * The doors (apps/core/middleware.py, apps/portal/middleware.py): Doors.antt has the two
--     middlewares of the core and the portal's one, and all three as config/settings/base.py
--     orders them.
--   * The catalogs of translations (tools/catalog.py): Tools/Catalog.antt reads and writes a file's
--     entries, Tools/Catalog/Parts.antt has the parts of an entry, and Tools/Catalog/Filling.antt,
--     Tools/Catalog/Fuzzy.antt and Tools/Catalog/English.antt are `fill`, `clear_fuzzy` with
--     `status`, and `sync_english`. A file is its text, and an entry the list of its lines.
-- An operation keeps its source name, except that `seen` of liveness.py is `mark_seen`.
--
-- How the parts meet. A chat service is an action on a `World` (Chat/World.antt): the settings, the
-- present moment, the store, the rows of the tables, and the frames published so far. It returns a
-- value or raises. A conversation in a caller's hands is a copy of its row: operations take the
-- copy and give back the copy as the call leaves it, and what they save goes to the row with its
-- number, so a stale copy behaves as it does in the program. A conversation's ticket is read from
-- its row when it is used. The services of the store alone are actions on `Redis`, which takes the
-- moment of a call as an argument: a read purges a key whose time has come, as the source does. A
-- row lock makes a transaction one step, and a call runs without others in between.
--
-- A portal operation is a function on a `Site` (Portal/Model.antt): the settings, the moment, the
-- rows of the accounts and the links, the addresses of staff, and the mail that was handed to the
-- tasks. What the framework and the interpreter supply there (password hashes, random values,
-- SHA-256, letter case, the password policy) is `Library`, a record of functions that a `Site`
-- carries; a random value is a function of the number of draws made before it.
--
-- A socket is its groups, which the channel layer keeps, and what its consumer object holds; a
-- frame that arrives is an action on the `World`. Reading JSON and `int` are functions of `Wire`;
-- signing, SHA-256 and the comparison of digests are functions of `Signer`; which characters are
-- digits or belong to words, and letter case, are functions of `Letters`. An intake operation is an
-- action on an `Office`: the moment, the counters of references, and the rows of people, tickets,
-- messages and logs. Whether the database takes a mail's rows, and a row of
-- the log by itself, is the answer of a `Host`.
-- A view of the staff's tickets is a function on a `Desk`, and a sending task one on a `Post`: the
-- rows that they read and write. Whether a mail is taken is the answer of a `Transport`. The doors
-- take a handler, the view in the end, and the state of a thread, whose language it has; resolving
-- a path and setting a language are functions of `Web`.
--
-- Bounds and fuel. Numbers are the naturals: the places where the source takes `max(0, ...)` are
-- marked. The loop of `connect_next_waiting` runs on fuel one more than the number of those who
-- wait, since each round that goes on takes one of them out of the queue. Moments are numbers of
-- seconds on one clock. The rate limiter reads time in ticks, a fixed number to a second, and holds
-- its tokens in parts of that number, so that no fraction is rounded; the source uses floats. The
-- digits of a number are found on fuel one more than the number, which each division lessens. The
-- task that sends a reply makes as many attempts as the source allows, with nothing in between.
--
-- Not modelled: the other views, the forms, templates and URL tables, which are glue to the
-- web framework; the channel layer, whose `group_send` is an entry in the list of frames; the
-- database beyond the rows that a service reads and writes; the real Redis client; the translated
-- texts, which are constructors of `Notice`, `Answer` and `Refusal`, or arguments. The mail
-- adapters and the collection of mail, the storage and the download of files, the queue of the
-- staff's desk, the check of placeholders in a catalog, tools/mutate.py, the administration of
-- accounts, and the audit of the core are left out.
pub mod Prelude
pub mod Core
pub mod Tickets
pub mod Chat
pub mod Portal
pub mod Intake
pub mod Tools
pub mod Attachments
pub mod Mail
pub mod Doors
