-- ===== src/Lib.antt =====
-- The auction server of bid-battle (server/src), live auctions whose bids are taken in Redis and
-- kept in MySQL, started and ended by jobs of two BullMQ queues; and the core of its web client
-- (client/src/app).
--
-- How the parts interact. `AuctionsService` creates a row and queues its start. The start
-- processor makes the row ACTIVE, puts the auction's keys into Redis and queues its end.
-- `BidGateway` hands bids to `BidService`, which checks them and runs one Lua script in Redis
-- that compares and writes atomically, then saves a row, or rolls the keys back. The end
-- processor reads price and leader from Redis, closes the row, removes the keys and tells the
-- room. `updateAuction` and `cancelAuction` change rows, jobs and keys together. A new server
-- process restores the keys of ACTIVE rows that Redis lost. `AuthService` keeps accounts, their
-- one-time tokens and refresh tokens in MySQL, and puts mails into a third queue; the guard of a
-- socket looks its account up there. The client keeps a session whose access token is refreshed
-- around its requests, socket connections, toasts and what a page remembers, and its forms check
-- what they send by rules of their own.
--
-- Which file models what:
-- - Entities: server/src/modules/auctions/entities, server/src/modules/auctions/enums,
--   server/src/modules/bid/entities, server/src/modules/users/entities and
--   server/src/modules/users/enums.
-- - Platform: the services that the code calls. `RedisServer`, `Database` and `JobQueue` are
--   records of operations with their documented laws, parameters of everything else;
--   `Tests.Fixture` fills them. `Effects` has the world (store, tables, jobs, clock, what was
--   sent) and the monad of the async methods, `Inert` the methods that change no row.
-- - Core: server/src/core/gateways/base.gateway.ts (`RateLimit`) and
--   server/src/core/filters/http-exception.filter.ts (`HttpExceptionFilter`).
-- - Redis: server/src/shared/redis/redis.service.ts. `Script` is BID_SCRIPT; `Commands` are the
--   command batches; `Auctions`, `Rooms` and `Cache` are the methods with their try blocks.
-- - Users: server/src/modules/users/users-token.service.ts (`Tokens`), and users.service.ts,
--   user-preferences.service.ts, social-account.service.ts and repositories beside it (`Profile`).
-- - Mail: server/src/shared/mail/mail.service.ts. FileUpload:
--   server/src/shared/file-upload/file-upload.service.ts.
-- - Auth: server/src/modules/auth/guards/ws-jwt.guard.ts with `validateJwtUser` of
--   server/src/modules/auth/auth.service.ts (`WsGuard`), and the other methods of that service:
--   `login`, `refreshToken` and `logout` (`Sessions`), forgotten, reset and changed passwords
--   (`Passwords`), `register` and the verification of an email (`Registration`), logins by a
--   provider (`OAuth`, and server/src/modules/auth/strategies in `Strategies`), the handlers of
--   server/src/modules/auth/auth.controller.ts (`Controller`), a registration that leads to a
--   login (`Joining`) and a deleted account (`Leaving`). The JWT library, bcrypt and SHA-256 are
--   parameters (`Credentials`); what is drawn at random is an argument.
-- - Bid: server/src/modules/bid/bid.constants.ts (`Increment`),
--   server/src/modules/bid/bid.service.ts (`Service`), server/src/modules/bid/bid.gateway.ts
--   (`Gateway`, with `notifyAuctionEnd` in Auctions.EndProcessor).
-- - Auctions: server/src/modules/auctions/auction.scheduler.ts (`Scheduler`),
--   server/src/modules/auctions/auctions-start.processor.ts (`StartProcessor`, `Reconciliation`),
--   server/src/modules/auctions/auctions-end.processor.ts (`EndProcessor`) and
--   server/src/modules/auctions/auctions.service.ts (`Service`, and its lists in `Listing`).
-- - Client: of client/src/app/core/services, notification.service.ts (`Notifications`),
--   token.service.ts and auth.service.ts with client/src/app/core/guards (`Session`),
--   socket/socket-connection.ts and socket/socket.service.ts (`Sockets`, `Sockets.Registry`), and
--   theme.service.ts, loading.service.ts, storage.service.ts and title.service.ts (`Page`),
--   language.service.ts with `getLang` of server/src/core/gateways/base.gateway.ts (`Language`); the
--   popups of client/src/app/shared/components/popup (`Page.Popup`); refresh.interceptor.ts and
--   error.interceptor.ts of client/src/app/core/interceptors (`Requests`); the validators and the
--   submissions of client/src/app/features/auth/pages with the password rules of
--   server/src/modules/auth/dto (`Forms`, `Pages`).
-- - Sale: the start job, the bids, the end job and the reconciliation composed.
-- - Tests: a platform in memory, and the theorems at concrete inputs.
--
-- State and failures. The world has the one socket whose event is handled; Socket.IO's joins,
-- leaves and messages do not fail, and a disconnection is an event of its own. A method is a
-- function from the world to its outcome, a value or an exception, and the next world. Each
-- request to Redis, the database or a queue takes the next entry of a list of faults: it
-- succeeds, it is refused before it has an effect, or it takes effect and its reply is lost. A
-- pipeline or MULTI is one request, which takes effect as a whole. Requests of one `Promise.all`
-- go out in the order in which they are written. A commit is not a request of its own: a
-- transaction whose body returns is committed, one whose body throws is rolled back; that a
-- commit fails, or succeeds and loses its reply, is left out. Between two requests of one method
-- nobody else acts, except in Redis.Script.Ladder, which runs the scripts of any number of
-- clients, and in Redis.Commands.Lifecycle, which runs the requests of any number of clients in
-- any order, the two of a rollback apart from each other.
--
-- The browser. It is one thread: a handler runs to its end, and what happens between two handlers
-- is a list of events or a step relation in any order. A request is a number with a phase, so
-- that any number of them may be under way; its subscriber may unsubscribe, and a request behind
-- its refresh takes that with it, which leaves the flag set. A timer is the time when it is due;
-- a socket is its place among those that were made, and reports what its library documents.
-- Storage keeps its keys in some order, which a removal may change as the browser likes; no key
-- gets another value by that. The ids that are drawn at random, the translation, the pattern of
-- an email and JSON are parameters.
--
-- Numbers. Ids and prices are non-negative integers; request validation bounds a bid by 1 and
-- 999,999,999, so that no product leaves the exact range of a double. The configured percent of
-- an increment is taken to be a whole number, since a double rounds other products; the
-- configured minimum may have a fraction and is in hundredths, as is the increment (the shipped
-- 0.01 is 1). What compares whole amounts with it, the service and the script, is given the next
-- whole number. Dates and delays are milliseconds, times to live seconds; a duration that is not
-- positive counts as 0. An auction's or a socket's key holds the decimal text of a number, since
-- only `RedisService` writes them; a cache entry holds a text. A socket's id is a number, as it
-- is only compared.
--
-- Fuel. The scan of `invalidateCache` runs for `rounds` calls, the number in which the server
-- promises that a full iteration is over. The page loop of the reconciliation takes the number of
-- its rounds as an argument; one is enough where fewer rows than a page are ACTIVE.
--
-- Not modelled: the other controllers and the validation of requests but for the password rules,
-- the lists of a user's own auctions and bids and the search of users, the storage of uploads,
-- the SMTP side of mails, logging, translation (a text stands for its key) and configuration. A
-- date is stored to the millisecond. `process_end` leaves out the mails, which are sent off
-- without being awaited: `send_end_notification_emails` is a function of its own. Of the client,
-- the wrappers of the HTTP client, the components and their templates are left out; a page's
-- toasts and popups are effects by name, the toast of a failed request is a call beside the
-- session, and the request that a logout sends is not awaited.
pub mod Prelude
pub mod Entities
pub mod Platform
pub mod Redis
pub mod Bid
pub mod Auctions
pub mod Auth
pub mod Core
pub mod Users
pub mod Mail
pub mod FileUpload
pub mod Client
pub mod Sale
pub mod Tests
