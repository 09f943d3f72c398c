-- ===== src/Lib.antt =====
-- The influence platform: a verification of the logic of its dashboard, under dashboard/src,
-- apart from rendering, and of the core of its distribution engine, under
-- distribution-engine/src.
--
-- Parts, and the files that model them. A function has the name it has in the source, in snake
-- case; a record has the fields of the source's type.
--
-- * Outcome (dashboard/src/lib/publication-outcome.ts): what a publish intent's targets amount
--   to, and the outcome that the studio shows. `summarize_publish_targets`,
--   `resolve_publication_outcome`, `is_publication_outcome_terminal`. Outcome/Targets has the
--   lemmas on counting targets, Outcome/Variant and Outcome/Terminal the theorems.
-- * Publish (dashboard/src/components/generation/GenerationStudioPublishPanel.tsx): the panel's
--   form and its guards; Publish/Hashtags reads and formats hashtags; Publish/Key builds the
--   idempotency key and the payload; Publish/PostNow is `onPostNow` as a step function, in which
--   each click runs a handler that waits for the intent and for its dispatch, and a schedule is a
--   list of clicks and answers in any order; Publish/Intent is `onCreateIntent` and
--   Publish/Polling the effect that asks for the intent again. They call Outcome.
-- * JobProgress (dashboard/src/lib/generation-job-progress.ts): the phase, the bar and the texts
--   of a generation job; its data are in JobProgress/Model.
-- * Dock (dashboard/src/lib/generation-dock.ts): titles, presentation, tone and times of the
--   tracked jobs; it uses JobProgress and Outcome. Dock/Notify is the notification effect and
--   Dock/Fetch the fetching of jobs in
--   dashboard/src/components/generation/GenerationJobProgressDock.tsx, whose list of tracked ids
--   comes from Tracking.
-- * Tracking (dashboard/src/lib/generation-job-tracking.ts and generation-job-actions.ts): the
--   ids of the tracked jobs in the browser's storage.
-- * Workflow (dashboard/src/lib/generation-studio-workflow.ts) and Stepper
--   (dashboard/src/lib/platform/stepper.ts): the phases of the studio and the steps shown for
--   them.
-- * Home (dashboard/src/lib/dashboard/home-metrics.ts and kpi-catalog.ts): the home page's view
--   model; the catalogue is in Home/Catalog.
-- * Errors (dashboard/src/lib/generation-errors.ts): the messages shown for failures.
-- * Api (dashboard/src/lib/api.ts): Api/BaseUrl chooses the addresses of the services,
--   Api/Recovery is `handleUnauthorizedError` as a step function on the handlers that wait and
--   the module's flag. Api/Message is `formatContentApiError`; it uses Errors.
-- * Publications (dashboard/src/lib/publication-types.ts) and Alerts
--   (dashboard/src/lib/alerts.ts).
-- * Auth (dashboard/src/app/api/auth/[...nextauth]/route.ts and dashboard/src/lib/auth.ts):
--   `authorize`; Auth/Session has the callbacks `jwt` and `session` and the role of the current
--   user. Auth/Login is about who is let in, Auth/Roles about what the role becomes.
-- * Engine/Target, Engine/Intent, Engine/Publication, Engine/Command and Engine/Schedule
--   (distribution-engine/src/publisher/PublishingWorker.js): the publication of the targets of an
--   intent. Target has the statements on a row of `publication_targets`, Intent the status of the
--   intent, Publication the row that mirrors a target. Command is `processPublishCommand` with
--   `handlePublishFailure`: a `Stage` is the statement that a handler waits for, `proceed` what
--   it does when it answers, `thrown` where it goes when it throws, `adapted` what the adapter's
--   reply does. Schedule runs any number of handlers, with enqueued duplicates, crashes and
--   recoveries, as a list of events; a process that ends while its adapter runs may have posted.
--   Intent/Agreement is about the engine's status and the dashboard's outcome together,
--   Schedule/Alone about a handler that nothing disturbs.
-- * Engine/Media and Engine/Adapter
--   (distribution-engine/src/publisher/adapters/platformAdapter.js): the caption and the kind of
--   a publication, and `publish` with its requests to the Graph API, which are in its result;
--   Engine/Adapter/Calls compares them with what Command makes of the reply,
--   Engine/Adapter/Covered with the row that its handler leaves.
-- * Engine/Retry and Engine/Packet (distribution-engine/src/publisher/PublishingWorker.js): the
--   delays and classes of errors, and `processPacket` for one account; Engine/Packet/Loop is its
--   loop over the accounts, on fuel: Engine/Packet/Loop/Ends gives the fuel that is enough.
--   Engine/Delayed (distribution-engine/src/core/redis.js) is the queue of the packets that wait.
-- * Engine/Safety has Limits (distribution-engine/src/core/actionLimits.js), Cooldowns
--   (distribution-engine/src/core/cooldownManager.js), Guard
--   (distribution-engine/src/middleware/safetyGuard.js), which uses both, and Warmup
--   (distribution-engine/src/managers/WarmupManager.js).
-- * Engine/Access (distribution-engine/src/core/accessScope.js): roles, scopes, accounts and
--   proxies of a user.
-- * Engine/Manual (distribution-engine/src/managers/publicationsRouter.js): the retry by an
--   operator, with the target that Command publishes and the access that Access gives;
--   Engine/Manual/Offered compares it with the dashboard's Publications.
-- * Engine/Proxies (distribution-engine/src/proxy/ProxyManager.js): the assignment of proxies,
--   its calls as handlers that go on statement by statement in any order.
-- * Prelude passes on the library's names and has the list functions; Js has strings as lists of
--   UTF-16 code units, their methods, and values of unknown type.
--
-- Parameters: the answers of the services, the session library, `new URL(url).hostname`,
-- `Date.parse`, `Date.now`, `Intl.RelativeTimeFormat` and the floating-point percentage
-- (`Home.Rounding`: the nearest whole number of percent) are arguments of the definitions that
-- use them, and so are the replies of the Graph API, of the token service and of the proxy
-- (`Adapter.Provider`), the users of the database (`Access.Users`), the answers during the run of
-- a packet (`Packet.Answers`) and the random number of a retry.
--
-- Conventions: `null` and `undefined` are `none` where the code does not tell them apart; a
-- status is its text, and a constructor where the engine has a fixed set; progress, counts and
-- times in milliseconds are natural numbers; a subtraction that the code cuts at 0 is truncated.
-- `toLowerCase` and `toUpperCase` are exact for the comparisons with Latin-1 texts that the
-- program makes. Objects used as maps from ids are association lists: no id is the name of a
-- property of `Object.prototype`, except in Alerts, where that case is modelled. Recursion is on
-- lists; the fuel of `decimal` is the number plus one, more than its digits, and the polls of a
-- container are the 20 of the code. The loop over a packet's accounts takes fuel, for which a
-- theorem says how much is enough.
--
-- Not modelled: rendering and styles, toasts other than the dock's, the texts of the languages,
-- the request methods of the API client, the pages, the routers, engagement, analytics and alerts
-- of the distribution engine, and the content factory and the emulator controller, which are in
-- other languages. In the schedules a synchronisation reads and writes at once, a push back with
-- its removal throws as a whole, rows are not deleted, and an exception of the adapter is taken
-- to come before the post, as its code has it.
pub mod Prelude
pub mod Js
pub mod Alerts
pub mod Api
pub mod Auth
pub mod Dock
pub mod Engine
pub mod Errors
pub mod Home
pub mod JobProgress
pub mod Outcome
pub mod Publications
pub mod Publish
pub mod Stepper
pub mod Tracking
pub mod Workflow
