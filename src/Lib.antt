-- ===== src/Lib.antt =====
-- A model of the social network of this repository: a monolith that serves users, posts, feeds and
-- dialogs over HTTP and WebSocket, chat-service, which stores dialogs, and counter-service, which
-- counts unread messages. They work on PostgreSQL, Redis and RabbitMQ.
--
-- How the parts interact. A handler of the monolith authenticates by a bearer token and then reads or
-- writes the database. A new post is published to RabbitMQ; one consumer puts it into the cached feeds
-- of the author's followers and sends it on to every instance, each of which pushes it to its WebSocket
-- sessions. Changes of posts and friendships drop cached feeds. A dialog message goes by gRPC to
-- chat-service, which stores it and publishes an event; counter-service counts the event, resets the
-- count when the dialog is listed, and reconciles the totals from time to time.
--
-- Which file models which part:
--   * Prelude: numbers, lists, bytes, outcomes, integers, maps and `std::stoi`, without any code of the
--     repository.
--   * Platform: PostgreSQL, Redis, RabbitMQ, userver's JSON and HTTP and Boost.Uuid as records of
--     operations with their documented laws. PlainPosts, PlainQueues, Scans and the `plain_` values of
--     the other files are small implementations that meet the laws.
--   * Feed.Cache: src/post/post_feed_cache.cpp (`GetFeed` is `get_feed`, `OnPostCreated` is
--     `on_post_created`, and so on). In Feed.Cache.Failures a command may go unanswered, run or not
--     (`try_get_feed`, `try_on_post_created`); in Feed.Cache.Races two requests take turns with the replica,
--     the consumer and the handlers that drop feeds, command by command.
--   * Feed.Messages: src/post/post_feed_publisher.cpp, src/post/post_feed_consumer.cpp and
--     src/post/ws_fanout_consumer.cpp, whose `Process` is `fanout_process` of Ws.Fanout; that file also
--     follows a post from the handler to the session of a follower. Feed.Messages.Redelivery has the
--     `Process` of the feed's consumer where a command of the cache fails.
--   * Feed.Posts and Feed.Reading: the handlers of src/post and src/friend. Feed.Posts.Coherence has
--     the cached feeds as a view of the database under all of them, with the laws `FeedRows` of the rows.
--     In Feed.Posts.Failures PUT may fail at the cache; Feed.Posts.Retry sends the request again.
--   * Ws: src/post/post_feed_ws_manager.cpp and, in Ws.Pump, src/post/post_feed_ws_handler.cpp. Ws.Reach
--     has the registries that can come about.
--   * Counter: counter-service/src/counter and scripts/redis/counter_functions.lua. Counter.History has
--     the ledger that the counters stand for, the order of events and their repeated attempts, Counter.Scan
--     the whole run of the reconciler.
--   * Users: src/auth and src/user, with Users.Passwords for src/user/password_hasher.cpp. Users.Journey
--     follows a user from registration to login.
--   * Dialogs: src/dialog, chat-service/src/dialog and scripts/redis/dialog_functions.lua. Dialogs.Pipeline
--     follows the event of a message, Dialogs.Services the calls between the three processes; in
--     Dialogs.Resend the client sends a message again.
--   * Wiring: the components that src/main.cpp, chat-service/src/main.cpp and counter-service/src/main.cpp
--     register, each with its class, what their constructors find and of which class, and the scopes of
--     configs/static_config.yaml.
--   * Greeting: src/greeting.cpp.
--   * Tests: the theorems at concrete inputs.
--
-- How the state is modelled. A handler takes the state and returns the next state with an outcome: a
-- response or the exception that leaves it. The feed has the Redis store and the two hosts of the
-- database, `master` and `slave`, since the code reads followers and feeds from the replica; the replica
-- may be any database. An `int` that leaves 32 bits is undefined behaviour and throws `undefined`; a
-- `size_t` wraps at 2 ^ 64. A text is the list of its bytes. A call of Redis by the counters, by
-- chat-service and by the `try_` functions of the feed takes a connection, which says that the command is
-- run and answered, that it is not run, or that it is run and its answer lost; the last two throw.
--
-- Bounds and fuel. `run_reconciliation` is on fuel, one unit for each page of SCAN, and is `none` where
-- the fuel ends before the cursor does; under the guarantee of SCAN, which is the record `ScanGuarantee`,
-- more fuel than there are pages is enough. `pump` and `handle` run over the rounds that a connection
-- lives. All else is structural recursion.
--
-- What is not modelled: the component lists, configuration schemas and settings of the framework, the
-- generated gRPC clients (parameters of the handlers; the record `Serves` says that they call the
-- services), failures of Redis under the handlers of the feed other than PUT, failures of PostgreSQL where
-- a handler only reads, concurrency inside a handler other than `GetFeed` (the end of a connection is one
-- step of the registry), deadlines, the delay in `SlowHash`, the refresh of the cache of tokens
-- (`TokenSnapshot` says what it reads), the period of the reconciler, and the wrap-around of the 64-bit
-- integers that Redis keeps.
pub mod Prelude
pub mod Platform
pub mod Feed
pub mod Ws
pub mod Counter
pub mod Users
pub mod Dialogs
pub mod Wiring
pub mod Greeting
pub mod Tests
