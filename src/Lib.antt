-- ===== src/Lib.antt =====
-- The verification library of overlay-broadcast: models of its pure and stateful Rust code, and
-- theorems on them. Paths are from the root of the repository.
--
-- The parts and how they interact. `crates/bsv` holds the primitives of the ledger: a byte cursor,
-- hashes, scripts, transactions, headers, the chain of headers and merkle proofs. The header chain
-- is the root of trust: a result of the boundary service that claims a merkle root is accepted
-- only if the chain has that root. `crates/api` is that service: it checks the size, the caller,
-- the expiry, the signature, the nonce and the budget of a request, runs it on a backend and logs
-- it. `crates/keygraph` is a bounded tree of nodes; `crates/broadcast` gives each of its nodes a
-- key and publishes, for each node, the key of its parent wrapped under its own with
-- `crates/cipher`, so that a user climbs from a leaf to the key of the message. `crates/ckd`
-- derives the keys of `crates/overlay`, which obfuscates a payload with the key of its position.
-- `crates/custody` keeps the life of a key as a hash chain, `crates/cmp` an audit log as another,
-- `crates/session` counts what a member's contribution pays for and builds the transaction that
-- its members and the broadcaster sign, and `crates/res` holds the parts that a deployment needs
-- when nodes and signers fail.
--
-- Which file models what, each with its theorems in modules below it:
--   Base: what the modules share. `Base.Outcome` is Rust's Result with `?`, `Base.Dict` is HashMap and
--     HashSet as association lists, `Base.LittleEndian` is to_le_bytes and from_le_bytes,
--     `Base.Bits` relates `|` to a sum.
--   Bsv.Cursor: crates/bsv/src/bytes.rs (Cursor, write_varint). A read returns its result and the
--     cursor moved on, or an error.
--   Bsv.Error, Bsv.Hash, Bsv.Script, Bsv.Transaction, Bsv.DataCarrier, Bsv.Header, Bsv.HeaderChain,
--     Bsv.Merkle, Bsv.Sighash: crates/bsv/src/error.rs, hash.rs, script.rs, transaction.rs,
--     datacarrier.rs, header.rs, headerchain.rs, merkle.rs, sighash.rs, with the names of the source.
--   Api.Error, Api.Config, Api.Auth, Api.RateLimit, Api.Request, Api.Audit: the files of
--     crates/api/src of these names; `push_entry` is AuditLog::record.
--   Api.Service: crates/api/src/service.rs and backend.rs, and verify_der_prehash of
--     crates/ckd/src/pin.rs. `handle` takes the service, the request, the time and the milliseconds
--     that the clock measures around the backend; `check_caller` and `spend` are the halves of
--     authenticate, `perform` and `conclude` the rest of handle.
--   Keygraph.Graph: crates/keygraph/src/graph.rs and error.rs. A NodeId is its number. `drain`, `climb`
--     and `check_nodes` are the loops of remove_subtree, leaf_to_root and verify_invariants.
--   Cipher.Primitives: what crates/cipher calls of other crates. Cipher.Aead, Cipher.Keywrap,
--     Cipher.Ecies: crates/cipher/src/aead.rs, keywrap.rs, ecies.rs. `unseal` is open of aead.rs.
--   Broadcast.Graph, Broadcast.Build, Broadcast.Update, Broadcast.Rekey: crates/broadcast/src/graph.rs
--     (the graph with encryption and decryption, build, leave and join, the communiques), error.rs and
--     rekey.rs.
--   Ckd.Group: what crates/ckd calls of other crates. Ckd.Key, Ckd.Seeds: crates/ckd/src/ckd.rs with
--     error.rs, and seeds.rs. `derive_public_child` is derive_child of XPub, `private_child` and
--     `public_child` the two after the MAC.
--   Overlay.Keys: crates/overlay/src/keys.rs with error.rs, and NodeError of
--     crates/bsv/src/nodeclient.rs; `overlay_keys` is from_master of OverlayKeys, `first_key` its
--     writing_key. Overlay.Graph: graph.rs.
--   Custody.Lifecycle: crates/custody/src/lifecycle.rs and error.rs.
--   Cmp.Audit: crates/cmp/src/audit.rs. Cmp.Guard: classify.rs and error.rs of that crate.
--   Session.Subscription: crates/session/src/subscription.rs and error.rs. Session.Builder,
--     Session.Channel: builder.rs and channel.rs of that crate; `input_digest` is the sighash of an
--     input for a flag, `verify_ops` the match of verify_unlock, `unseal` is open. Session.Signing:
--     sign_prehash_der of crates/ckd/src/pin.rs.
--   Res.Backoff, Res.Breaker, Res.Quorum, Res.Recovery, Res.Resubmit, Res.Shutdown: the files of
--     crates/res/src of these names, Quorum with error.rs.
--
-- How the code is modelled. A method of `&mut self` takes the state and returns the new one. Bytes,
-- text and hashes are lists of numbers; a number keeps the bound of its Rust type where an operation
-- can reach it: checked and saturating operations are written out, and a usize has 64 bits. The loop
-- of parse_script runs on fuel, one round for each byte and one more, which is enough; merkle_root
-- climbs at most 64 rounds, as the source does. Other loops are recursion on the list.
--
-- The loop of remove_subtree runs on what its guard lacks of max_nodes + 1 and that of leaf_to_root on
-- what the path lacks of max_depth + 3, as the source counts them. A function that draws randomness
-- takes the number of the next draw and returns the one after its last, so that each draw is a fixed
-- but unknown answer of the operating system.
--
-- Parameters. `digest` is SHA-256 of the crate sha2; the record `Crypto` has what the service
-- calls of k256; the record `Backend` is the trait of that name. No law is assumed of them outside
-- of `IsSigner`. The record `Primitives` has what crates/cipher calls of aes-gcm, k256, hkdf and
-- getrandom. `IsCipher` states what is relied on: AES-GCM decrypts what it encrypted,
-- Diffie-Hellman agrees, a public key is read back. The record `Group` has what crates/ckd calls
-- of hmac and k256, and `IsGroup` states that public keys add as secret keys do and are read back.
-- `Available` states that randomness does not fail and that AES-GCM encrypts short texts.
-- Cipher.Sample is an instance of those of cipher, Ckd.Sample of those of ckd. The record `Signer`
-- has what sign_prehash_der calls of k256 and the hash160 of a key; `IsSigner` states that a
-- signature verifies, with the low S too, and that DER is read back and has at most 72 bytes.
--
-- Not modelled: the node client, network, file and console input and output, memory locking,
-- sign.rs of cipher, the cryptographic arithmetic of custody, the writer of overlay, and the
-- crates kst and obs. That a user without the right key cannot decrypt is a computational claim on
-- AES-GCM and is not stated. Logging, formatting and the capacity of buffers are left out.
pub mod Api
pub mod Base
pub mod Broadcast
pub mod Bsv
pub mod Cipher
pub mod Ckd
pub mod Cmp
pub mod Custody
pub mod Keygraph
pub mod Overlay
pub mod Res
pub mod Session
