-- ===== src/Lib.antt =====
-- The backend of a movie streaming service: a FastAPI application over PostgreSQL that sells movies,
-- series unlocks and subscriptions and decides who may sign in and what they may watch. The files
-- here model the services that carry these decisions; a path in a comment is from the
-- repository's root.
--
-- The parts, and the files that model them:
--
--   Shared            helpers: tables as lists (Rows, Members, Counts), dicts as association
--                     lists (Dict), requests as transactions (Request), Boolean tests, instants
--   Models            the tables users and sessions, and the settings (app/models, app/config.py)
--   Tokens            app/core/security.py: payloads, access and playback tokens; Scopes: what a
--                     playback token opens
--   DeviceLabel       app/services/session.py: device_label_from_user_agent
--   Session           app/services/session.py: create_session, refresh_session, list_active_sessions,
--                     require_active_session, revoke_session, revoke_all_user_sessions; its children
--                     hold the device limit (Limit), the rotation of token versions (Rotation), and
--                     revocation (Revocation, Lasting); Outcome says what a refresh leaves behind
--   Auth              app/dependencies/auth.py; Acceptance: which tokens are accepted, and for
--                     whom; Revoked: what revoking does to them; Guests: requests without a user
--   Shop              the rows of the shop: titles, channels, purchases, subscriptions, plans,
--                     payment intents, home sections (app/models)
--   Access            app/services/content_access.py, with the free-today lookup of
--                     app/catalog/free_today.py and app/catalog/home_sections.py; Access/Grant states
--                     the ways a title is granted, Access/Entitlement compares the code with it
--   Billing           Plans: app/billing/subscription_plans.py and the choice of a plan in
--                     app/billing/fulfillment.py; Fulfillment: app/billing/fulfillment.py;
--                     CheckCache: app/billing/bakong_check_cache.py; Quota:
--                     app/billing/bakong_quota.py; Probe: probe_khqr_status of app/billing/bakong.py;
--                     Settle: app/billing/bakong_settle.py and app/billing/ownership.py; Polls:
--                     load_buyer_intent and settle_pending_intent_on_poll of app/billing/intents.py;
--                     Checkout: the rest of it, app/billing/intent_helpers.py and the checkout routes
--                     of app/billing/router.py, with Again and Race for two checkouts of one buyer
--                     and Failed for those that fail
--   Devices           Pairing: app/services/device_pairing.py; TvAccess:
--                     app/services/tv_access_codes.py
--   Accounts          app/services/auth.py and app/services/guest.py; Providers: sign-ins by Google,
--                     Apple and Telegram, Identity: whom they let in; Resets: one-time secrets, Single:
--                     a reset works once; Claims and Collisions: what a sign-in takes over of a guest;
--                     BotLogin: app/services/telegram_bot_login.py, Confirmed: who confirms it
--   Community         app/services/comments.py and the routes that write comments; Listing: how a page
--                     of threads is made up, Threads: which comments it collects; Depth and Shallow:
--                     how deep replies nest; Votes: set_comment_vote
--   Tests             the definitions at concrete inputs
--
-- How they interact: a sign-in creates a session and an access token that names it; every later
-- request requires that session. A buyer pays an intent at the bank; Settle asks Bakong through Probe,
-- which spends the budget of CheckCache and stops while the circuit of Quota is open, and hands a paid
-- intent to Fulfillment, which writes the rows that Access reads. A pairing code and the id of a
-- television both end in a session of Session.
--
-- Conventions. A UUID is a number that is only compared; the key of a new row is an argument. An
-- instant is a number of microseconds; each reading of a clock is an argument, or one of one record.
-- Amounts are in cents. A table is a list of rows, the newest first. A request is a function from a
-- connection, which holds the tables as the request sees them and as they were last committed, to its
-- answer and the next connection (Shared/Request); `run` answers what is stored afterwards, so that an
-- error drops what was not committed. A history is a sequence of requests. Where the code takes row
-- locks, or the locks of the in-process dicts, they serialise the requests that touch the same rows;
-- where it takes none, as in Home, nothing is said of requests that overlap. The calls of Redis of the
-- distributed lock are interleaved one round trip at a time (DistributedLock/Trips). Every function is structural,
-- but for the loop that collects the threads of comments (expand in Community/Listing), which takes
-- fuel for every stored comment; it never runs out.
--   SharedCache       app/services/shared_cache.py: bytes in Redis, or nothing
--   ResponseCache     app/services/response_cache.py: the answers that a worker remembers; Entries
--                     and Capacity count them, Refinement and Exact compare the cache with a function
--                     from keys to entries, Layered is about the worker's entries and Redis together
--   DistributedLock   app/services/distributed_lock.py; Laws: what it relies on; Trips: its round trips
--                     to Redis, interleaved; Ownership: who owns a key over those of all processes
--   Publishing        app/core/content_status.py, app/services/content_publish.py, series_publish.py;
--                     SeriesAdmin: the handlers of app/routers/series.py that create and change a
--                     series; ContentAdmin: those of app/routers/movies.py, admin/movies.py,
--                     admin/podcasts.py and series.py that change a movie, a podcast or an episode;
--                     Sweep: app/services/publish_sweeper.py; Shelf, Movies, Due and Starved:
--                     what the handlers and sweeps keep, and what a sweep publishes
--   Home              app/schemas/home_section.py and the checks of app/catalog/home_sections.py;
--                     Sections: the handlers of app/routers/admin/home_sections.py; Order, Strict and
--                     Reorder: what a reorder does to the list; Limits, Steps and Capacity: the limits
--                     of the sections over all requests; Rails: the rails of app/catalog/
--                     hero_featured.py, promotion_banners.py, free_today.py and coming_soon.py;
--                     Public: what the page shows; Shown and Published: how much, and which movies
--
-- Parameters: PyJWT (Tokens.Jwt), the answers of Bakong (Probe.Answer), what Redis holds (an argument
-- of the functions of Billing/Quota), SHA-256 (`digest` in Devices/Pairing), and the KHQR that is made
-- for an amount and a bill number (`khqr` in Billing/Checkout). In Accounts: password hashing (`hash`,
-- `verify`), and what a provider's token says. The clients of Redis (SharedCache.Redis,
-- DistributedLock.LockService, with the laws in DistributedLock/Laws), file locks, JSON, and what
-- image processing makes of a key (`optimize` in Publishing/SeriesAdmin), and the database's order of
-- names (`name_before` in Home/Public).
--
-- Not modelled: HTTP routes, schemas and response bodies; the checks of identity providers;
-- the text and the delivery of alerts; storage, transcoding and mail; migrations, scripts and seeds;
-- uploads and deletions of titles; the search and most lists of the
-- catalog.

pub mod Shared
pub mod Models
pub mod SharedCache
pub mod ResponseCache
pub mod DistributedLock
pub mod Publishing
pub mod Home
pub mod Tokens
pub mod DeviceLabel
pub mod Session
pub mod Auth
pub mod Devices
pub mod Community
pub mod Shop
pub mod Access
pub mod Billing
pub mod Accounts
pub mod Tests
