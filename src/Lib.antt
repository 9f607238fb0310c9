-- ===== src/Lib.antt =====
-- Verification library of the Clutch backend and frontend.
--
-- The parts and the files that model them:
--
-- Session - backend/src/core/services/refresh-token.service.ts. Types has its records and errors; a
-- thrown error is a case of `Result`. Store has the store of sessions twice: as the interface
-- `RefreshSessionStore` with the laws that the service relies on, and as the in-memory store, which
-- obeys them. Service has `issueSession`, `rotateSession` and `revokeSession` as functions of the
-- store, the clock value and the values drawn by `randomUUID`; the signing and verification of
-- tokens (jsonwebtoken) and the hash (SHA-256) are the parameter `TokenCodec`. An operation is one step, because the code runs its body under a lock per session. Rotation, Reuse and Trace prove. Locking is that lock, `withSessionLock`: System has the calls that overlap as a step relation, with the lock objects in a heap; Queue, Moves, Entering, Leaving and Invariant find the queue of each session in it, and Exclusion and Drain prove.
--
-- Jwt - backend/src/config/jwt.ts: KeyRing resolves the keys and the claims from an argument or the
-- environment, Sign has the signers, Verify the verifiers, Bearer the reading of the header, which Compact describes;
-- `jwt.decode`, `jwt.verify` and `jwt.sign` of jsonwebtoken are the parameter `JsonWebToken`, and
-- what it documents of a token that it has signed is the hypothesis `SignsAndVerifies`. Codec is
-- the `TokenCodec` of Session made of them. Usable, Laws and Roundtrip prove. A kid that names a
-- member of `Object.prototype` is no key here.
--
-- OAuth - the one-time stores of backend/src/core/services/social-auth.service.ts (StateStore) and account-connection.service.ts (PkceStore), and the signed states that both write (Signed), with HMAC as a parameter. Once has the histories of the first.
--
-- Providers - backend/src/core/providers/provider-registry.ts (Registry) and how requests name a provider, for a login and for a connection (Names). Laws proves. `toUpperCase` is by the letters that can give one of the names.
--
-- Social - the rest of social-auth.service.ts: State has the state of a login, Usernames the user names and addresses that are made up, Service `startLogin` and `completeCallback` as functions of a `World`, the tables of users and accounts and the store of states. The environment, HMAC, JSON in base64url, the providers' clients, bcrypt, and NFKD and `toLowerCase` by the tables of Unicode are the parameter `Outside`, what a call draws at random is `Draws`. Answers says what an answer means; Linking, Outcome, Replay, Genuine, Start and Registrable prove. The metadata of an account is left out.
--
-- Presence - frontend/src/services/presence.ts: Connection has the class `PresenceConnection`, its
-- fields as a record; Events the calls and browser events that reach it, in any order. Backoff and
-- Single prove. Store is frontend/src/store/presence-store.ts.
--
-- Friends - backend/src/api/routes/friends.routes.ts (Routes) over
-- core/repositories/friend.repository.ts (Repository). A handler is a function of the tables and
-- the authenticated user, and returns the tables and the reply; an error that the handler does not
-- catch is status 500, as Fastify makes it. Counting, Invariant, Handlers and Outcomes prove.
--
-- Accounts - `unlink` and `updateVisibility` of backend/src/core/services/account-connection.service.ts (Service) over core/repositories/connected-account.repository.ts (Repository), with the columns of platform_integrations (Types). The user's record is a parameter. Logins, Visibility and Races prove; Service has `unlink` as one step, a call that runs alone, and Unlinking its check and its deletion as two, in a step relation on the calls of any number of users. Connect is core/services/connected-account.service.ts with `upsertConnectedAccount`, and Ownership proves; Tokens is config/protected-token.ts, with AES-GCM as the parameter `Cipher`, and Sealing proves. Flows is `startLink`, `completeLink`, `startReauth` and `completeReauth` of account-connection.service.ts: State has the signed state, Service the callbacks of OAuth and OpenID, Link what becomes of them, Start the beginnings; Genuine, Passing, Outcome and Reauth prove. The addresses that a browser is sent to, and with them the redirect addresses of the environment, are parameters, as are the providers' answers.
--
-- Cache - frontend/src/lib/query/social-cache.ts: Queries has the cached queries of TanStack's
-- client, Notifications and Friends the updates. Laws proves.
--
-- Database - what the repositories rely on of Prisma and PostgreSQL: Table is the interface, with
-- its laws, and Memory a list of rows that obeys them. A transaction is one step.
--
-- Prelude - names of the standard library, maps with string keys, lists, integers.
--
-- Times are natural numbers of milliseconds (of seconds in Jwt). No definition needs fuel. Not
-- modelled: network and cookie handling, logging, the validation of request bodies by zod, the HTTP
-- clients of the providers, the React components, and the services that no file here names.
pub mod Accounts
pub mod Cache
pub mod Database
pub mod Friends
pub mod Jwt
pub mod OAuth
pub mod Prelude
pub mod Presence
pub mod Providers
pub mod Session
pub mod Social
