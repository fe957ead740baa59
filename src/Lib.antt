-- ===== src/Lib.antt =====
-- A messaging platform's server (Python, server/server): its shared state, the services that work on
-- it, and the reliable stream of its relay peers. Each service is a class over one InMemoryState; a
-- method checks its guards, raises a ServiceError with an ErrorCode, or changes the tables and saves.
-- Here a service is a record, a method a function from the service to a result and the service after
-- it (Prelude.Exec: what was written before a raise stays written), and a run of a server is a list
-- of requests, served one after the other, as the services' locks make them.
--
-- Which file models what:
--   Prelude: tests, lists, dictionaries in insertion order, errors with state, text as character
--   codes with Python's int() and str(), integers.
--   Errors, Protocol: server/server/protocol.py, the error codes, message types, their names and texts.
--   State: server/server/state.py, the records, the tables and what a save writes (_runtime_payload);
--     State.Loading is what a start loads of it (_apply_payload).
--   Auth: server/server/services/auth.py (AuthService.login, register, resolve_session; the constructor
--     is start_auth), with no Redis cache bound;
--     Auth.Server puts it beside PhoneOtpService, which opens sessions in the same table.
--   Calls: server/server/services/call_session.py (CallSessionService.create_invite, accept, decline,
--   end as end_call, rendezvous).
--   Remote: server/server/services/remote_session.py (RemoteSessionService, every method; the
--     constructor is start_service).
--   PhoneOtp: server/server/services/phone_otp.py (request_code, verify_code and their helpers; the
--     TypeError that compare_digest raises on a code that is not ASCII is the result `escaped`).
--   TwoFa: server/server/services/two_fa.py (TwoFAService, every method).
--   BlockMute: server/server/services/block_mute.py (BlockMuteService, every method).
--   Chat: server/server/services/chat.py (ChatService, every method). Feed, History, Messages, Sending,
--     Members, Uploads, Search and Sync hold the methods, and Payloads what they return (protocol.py);
--     Requests is one type for all of them, and Steps shows each to be one of four kinds of change of
--     the table of conversations, on which Growth, Safety and Authors build. What _now_ms() returns is
--     part of a request.
--   Polls: server/server/services/polls.py (PollsService, every method).
--   PushTokens: server/server/services/push_tokens.py (PushTokenService, every method).
--   Contacts: server/server/services/contacts.py (ContactsService; remove is remove_contact).
--   Drafts: server/server/services/drafts.py (DraftsService, every method).
--   Flags: server/server/services/conversation_flags.py (ConversationFlagsService).
--   RateLimit: server/server/services/rate_limiter.py (try_acquire, configure, reset).
--   Reliable: server/server/reliable_stream.py (ReliableChannel); Reliable.Network joins two channels
--   by a wire that may deliver any packet ever sent, at any time.
--
-- Bounds and fuel. Python's integers are unbounded, so numbers are natural numbers or integers with no
-- wrap-around. Clocks are arguments, in whole microseconds; a rate limit counts in fractions of a
-- token that make the configured rates whole numbers, and float rounding is not modelled. The loop
-- that drains buffered packets has as fuel their number, and each round removes one.
--
-- Arguments stand for what the server takes from outside: drawn keys, codes, hashes and ids, the
-- HMAC digests of two-factor codes, the match of the phone pattern, the digits of a text, the base64
-- functions, str.casefold, str.lower,
-- the password functions of crypto.py, and the blob store of attachment_store.py.
--
-- Not modelled: sockets, threads and dispatch (app.py, control_plane.py, media_plane.py, web_bridge.py),
-- SQLite, Postgres and Redis (state.py, repositories.py, redis_cache.py), the AES and TLS libraries, and
-- the clients; the cache in auth.py, and the services of account_lifecycle.py, presence.py, input.py,
-- push_dispatch.py, observability.py and attachment_store.py.
pub mod Auth
pub mod BlockMute
pub mod Calls
pub mod Chat
pub mod Contacts
pub mod Drafts
pub mod Errors
pub mod Flags
pub mod PhoneOtp
pub mod Polls
pub mod Prelude
pub mod Protocol
pub mod PushTokens
pub mod RateLimit
pub mod Reliable
pub mod Remote
pub mod State
pub mod TwoFa
