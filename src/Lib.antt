-- ===== src/Lib.antt =====
-- Proveria, a registry of cryptographic attestations. A producer hashes files and extracted content
-- into leaves, uploads a manifest with the Merkle root of the leaves, and the registry validates and
-- confirms it; a lookup later answers with a package that proves that one leaf is under the root.
--
-- Which file models which part (paths from the repository's root):
--   Common, Common/*     numbers, lists, results and a stable sort that all parts share.
--   Bytes, Bytes/*       byte arrays and strings (lists of bytes and of UTF-16 units), their order,
--                        hexadecimal, UTF-8, length-prefixed fields.
--   Json, Json/*         JavaScript values, reading and setting fields, JSON.stringify of numbers
--                        and strings.
--   Crypto, Crypto/*     packages/crypto-core: LeafHash (leaf-hash.ts), Merkle (merkle.ts), Canonical
--                        (canonical-json.ts), Signing (manifest-signing.ts, ed25519.ts).
--   Manifest, Manifest/* packages/manifest: types.ts, build.ts (Build), validate.ts (Checks,
--                        Validate, Signature).
--   Proofs, Proofs/*     packages/proofs: types.ts and build.ts, verify.ts (Verify).
--   Receipt, Receipt/*   packages/receipt: types.ts, build.ts, sign.ts (Sign).
--   Shingling, Shingling/*  packages/shingling: types.ts and shingle.ts, Normal (normalize.ts), Tokens
--                        (tokenize.ts), Payload (hash.ts), Browser (browser.ts). Windows and Passages
--                        say what the shingles are.
--   Attestation, Attestation/*  the lifecycle of an attestation: Handlers (apps/api/src/attestations/
--                        routes.ts: the transaction of a create, upload-manifest, finalize, cancel,
--                        repair) and Validation (apps/worker/src/handlers/
--                        attestation-validation.ts). A World holds the rows of attestations and
--                        attempts (packages/db/src/schema/index.ts) by their ids, and logs of what
--                        goes to the storage, the queue, the audit log and the webhooks. OtherWrites has
--                        what else writes these rows: submissions by API key
--                        (apps/api/src/public-v1/routes.ts), the sample of a new workspace
--                        (apps/api/src/onboarding/seed-sample.ts), and receipts
--                        (apps/worker/src/handlers/receipt-generation.ts). Steps makes
--                        the handlers and jobs a step relation; each runs alone. Diagram is the
--                        diagram of the states of an attestation, which the steps refine.
--   Audit, Audit/*       the hash chain of audit events (packages/audit/src/chain.ts) and the walk over
--                        it (audit/integrity in apps/api/src/tenants/routes.ts); a chain is the list
--                        of a tenant's rows in the order of their numbers, which the lock of the
--                        append keeps.
--   Entitlements, Entitlements/*  the limits of the plans (packages/shared-types/src/plans.ts) and their
--                        checks (apps/api/src/entitlements/limits.ts); Creation is the whole handler of
--                        a create (apps/api/src/attestations/routes.ts) with its guards, on tables as
--                        lists of rows; Caps are proofs.
--   Webhooks, Webhooks/* sign_webhook_payload (apps/api/src/webhooks/signing.ts), Verify (packages/sdk/src/
--                        webhooks.ts), Delivery (apps/worker/src/handlers/webhook-events.ts), Sending
--                        (webhook-delivery.ts there, and the job of apps/worker/src/index.ts). HMAC and
--                        the runtime are the records Hmac, Dates and Platform; a job runs on the number
--                        of attempts that the queue gives it. Header, RoundTrip and Retries are proofs.
--   Auth, Auth/*         Resolver (apps/api/src/tenants/resolver.ts) and DeviceSignature
--                        (apps/api/src/auth/device-signature.ts), on tables as lists of rows; Binding
--                        and Accepted are proofs. Sessions is apps/api/src/auth/sessions.ts: its calls,
--                        each of which is one statement, in any order. The functions of JavaScript are the record Runtime.
--   Idempotency, Idempotency/*  apps/api/src/public-v1/idempotency.ts; Stored is a proof.
--   Samples              a toy hash function and a toy signature scheme for the runs in the modules
--                        of tests.
--
-- Conventions. A function that throws returns a Result with a constructor per error; a promise is its
-- value. SHA-256 is the record Crypto.Sha256, whose digests are 32 bytes; no theorem assumes that it
-- has no collisions: theorems of integrity end "or SHA-256 has collided", with two messages
-- out of the finite lists of those that the runs in question hash. (Some two messages collide under any
-- such function, so that a collision as such would say nothing.)
-- Ed25519 is the record Crypto.Signing.Ed25519, in which what a key signs its public key accepts.
-- Buffer.from(h, 'hex') stops at the first pair that is no digit pair, as Node's does.
-- The loops over the levels of a Merkle tree take the number of leaves as fuel: each level has
-- (n + 1) / 2 nodes after n, so that the loop has ended before (Crypto/Merkle/Levels). The loop over a
-- paragraph of n tokens has n + 1 rounds, and the strides of the presets are positive.
--
-- A job that throws leaves the tables as they were and is no step. Each handler of a device's request is
-- one step, also where the source makes two writes outside a transaction (upload-manifest and repair in
-- apps/api/src/attestations/routes.ts): what another request could see between the two is not modelled.
-- The database's now() and the clock of the process are one clock. Ids are texts, compared as texts.
-- Number reads whole milliseconds only. Private keys are well-formed: an import of another one throws.
--
-- Not modelled: two jobs or requests that run at the same time; the other routes
-- of the API and jobs of the worker; the user interfaces, the
-- Rust and Python clients, extraction of text from documents, storage, deployment and tests.
pub mod Common
pub mod Bytes
pub mod Json
pub mod Crypto
pub mod Manifest
pub mod Proofs
pub mod Receipt
pub mod Shingling
pub mod Audit
pub mod Attestation
pub mod Entitlements
pub mod Webhooks
pub mod Auth
pub mod Idempotency
pub mod Samples
