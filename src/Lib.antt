-- ===== src/Lib.antt =====
-- ytshare, a site where signed-in users share YouTube videos and are notified of the shares of
-- others: its frontend, and parts of the backend behind it. A browser page holds a session
-- (frontend/src/modules/auth), calls the backend by an HTTP client that refreshes its token
-- (frontend/src/shared/constants/http-client.ts), and keeps a socket open for notifications
-- (frontend/src/modules/notifications).
--
-- Shared.Storage and Shared.Query are the browser's localStorage and the part of the query cache
-- that the code writes to: a store that may refuse to write, and a cache with the unread count
-- and the list of the keys given to invalidateQueries. Which queries a key selects is the
-- library's business, an interface with one documented law (a filter covers the keys that start
-- with it).
--
-- Http is http-client.ts: on_request and on_error are its two interceptors, up to the await. In
-- Http.Machine the calls of the page, the answers of the server and the end of a refresh are
-- events; refreshPromise is the list of the calls that wait for it, and their continuations run
-- in one go, as microtasks do. S is the application's state, which the hooks of configureAuth
-- read and change.
--
-- Auth is frontend/src/modules/auth: Session (auth-storage.utils.ts, with JSON as a parameter and
-- a round-trip law), Store (auth.store.ts), Bootstrap (auth-bootstrap.utils.ts: the store as the
-- hooks of the HTTP client), Client (the client at work over the store). An action that throws
-- because the storage refuses is none.
--
-- Notifications is frontend/src/modules/notifications. Dedup is rememberSeen: a Set is a test of
-- its members, the queue is a list. Events is handleEvent whole, on the refs, the storage, the
-- toasts and the cache. Socket is the effect of useNotificationsSocket.tsx for one session, as a
-- step relation: its steps are what the browser may call back, cleanup included; Socket.LogLine
-- is its URL as text and as it is logged. A payload that does not have the declared type is not
-- modelled.
--
-- Notifications.Feed, Unread, Popover and Toast are the hooks and components beside it: the
-- infinite query of the list, the unread count and its reset, and what is shown. Navigation is
-- frontend/src/shared/components/HorizontalNav.tsx and Sidebar.tsx. A view is a record of what it
-- shows, without class names and translated texts; toUpperCase and the parser of dates are
-- parameters.
--
-- Routes is frontend/src/routes: the four pages, with the guards of Auth.Guards before them
-- (auth-guard.utils.ts). Pages is what the forms of signing in, signing up and sharing do with
-- the result of their request; for the first two, which are shown without a session, that begins
-- with what the error interceptor of Http does to the store. Forms is their schemas, fields and markup, where zod's tests of
-- addresses and of URLs and what react-hook-form makes of issues are parameters. Videos
-- (frontend/src/modules/videos) is the query keys, the types and the home page;
-- Shared.RelativeTime is formatRelativeTime.ts, and Shared.Requests is endpoints.ts with the
-- requests of the services.
--
-- Redirects are followed with fuel; two are enough, since no guard redirects where another does.
-- All else recurs on a list or a count. Numbers are counts and times, without overflow.
--
-- Screens is what the browser shows at an address: the layouts of frontend/src/routes with the
-- pages in them, from the stores, queries and forms (Desk); a translated text is its key, and
-- Screens.Locale has the keys of frontend/src/locales. Screens.Texts lists the words of a screen,
-- those of the bars that stand in the code included.
--
-- Backend is the Go server. Backend.Hub, with the registry in Backend.Hub.Clients, is
-- backend/internal/modules/notifications/hub.go: the goroutine that owns the registry takes one
-- request after the other, so that a run is a list of events, with those of the write loops of
-- client.go between. A channel is its queue and whether it is closed, a client is its number, and
-- a map is the list of its entries in the order in which range gives them. Closing stop and the
-- answer of the owner to it are one event: what the owner still takes between the two stands
-- before it, and a registration that sees stop already stands behind it. Sending to a closed
-- channel and closing one again panic; that is a flag of the registry.
--
-- Backend.Videos is backend/internal/modules/videos: ExtractYouTubeID on the parsed URL
-- (url.Parse and the functions of strings that depend on all of Unicode are parameters), and in
-- Service the requests to share and to list, one after the other, over the table of videos and
-- the cached first page. What else the database, the cache and the table of users answer comes
-- with each request, failures included. The end of a cached entry's time is an event. A new row
-- stands first in the list, as the clock of the table does not go back.
-- Backend.Videos.Races is the requests to share in their steps, which come between each other's.
--
-- Backend.Accounts is backend/internal/modules/auth (service.go, jwt.go) with the check of a
-- request's token in backend/internal/middleware/auth.go, over the table of users as a list. The
-- libraries of passwords and of tokens are parameters; their laws stand in
-- Backend.Accounts.Tokens. Backend.Routing is the routes of backend/internal/server/server.go,
-- with that check before the private ones.
--
-- Backend.Unread is backend/internal/modules/notifications/service.go over the tables of users
-- and of videos, and Backend.Unread.Agrees sets its count beside the one that the frontend keeps.
-- Backend.Jobs is backend/internal/jobs/worker.go: the pool of goroutines as steps in any order,
-- where a step that has to wait is none. Backend.Stream is
-- backend/internal/modules/notifications/stream.go: publishing to the stream of Redis and the
-- subscriber that hands its entries to the hub. Redis is a parameter, whose laws stand in
-- Backend.Stream.Placed; an id of the stream is one number, and the stream is not trimmed.
--
-- Backend.Replay is the replay of the stream, with the socket and the fallback over HTTP of
-- handler.go beside it; Backend.Replay.Resumed sets it beside the id that the frontend resumes
-- from. Backend.Handlers is the bodies of the handlers of auth and of videos, with
-- backend/internal/httpx/response.go, and Backend.Handlers.Told what the frontend's pages make of
-- their replies through Axios, a parameter.
--
-- Not modelled: markup and styles, the texts of translations, other log lines; of the backend the
-- SQL, the validation of bodies, pings and deadlines, configuration and logging.

pub mod Base
pub mod Shared
pub mod Http
pub mod Auth
pub mod Videos
pub mod Notifications
pub mod Navigation
pub mod Routes
pub mod Pages
pub mod Forms
pub mod Screens
pub mod Backend
mod Tests
