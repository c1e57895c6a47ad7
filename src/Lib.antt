-- ===== src/Lib.antt =====
-- osclientcerts: a PKCS #11 module that exposes the operating system's certificates and private
-- keys.
--
-- The program: src/lib.rs holds the C entry points, which check the caller's pointers and lengths
-- and call a proxy; the proxy sends requests over a channel to one thread, where the `Manager` of
-- src/manager.rs keeps the sessions, searches, operations and objects; the manager asks a backend,
-- one for each platform, for the objects and for the cryptographic operations. src/mechanism.rs
-- parses the mechanism of an RSA operation, and src/util.rs has the errors, a DER reader and the
-- layout of integers.
--
-- The files:
--   Prelude      shared tests, lists, byte strings and `Result`.
--   ByteOrder    the two functions of the `byteorder` crate, as a parameter with their laws.
--   Cryptoki     the constants, structs and return codes of the `pkcs11` crate. `Cryptoki` is a
--                parameter, `standard` the published values. A pointer is an `Option`.
--   Util         src/util.rs: `serialize_uint`; Util.Errors: `CryptoError`, `crypto_error_to_rv`;
--                Util.Der: `Der`, `Sequence`, `read_rsa_modulus`, `read_ec_sig_point`, against the
--                reference encoder Util.Der.Encode; Util.Nss: the constants of `nss_trust`.
--   Mechanism    src/mechanism.rs: `parse_rsa_cipher_mechanism`; Mechanism.Accepts is what it is to
--                accept.
--   BTreeMap     the maps of the standard library, as entries in ascending order, with their laws.
--   Text         the strings of the standard library, as lists of characters.
--   Backend      the interface of a platform backend; Backend.Stub is src/backend_other.rs;
--                Backend.Lengths is a law that the manager's clients rely on.
--   Manager      src/manager.rs: Manager.State (the struct), Manager.Scan (scans and sessions),
--                Manager.Search, Manager.Sign, Manager.Decrypt, Manager.Encrypt (the methods),
--                Manager.Requests (the dispatch of the thread's loop), Manager.Invariant (what holds
--                between requests) and the properties.
--   Proxy        src/manager.rs: `ManagerProxy`, its channels and the loop of the manager's thread;
--                Proxy.Calls has its functions, Proxy.Replies which reply belongs to which request.
--                Proxy.Threads has threads that call entry points at the same time, behind the lock
--                `MANAGER_PROXY` of src/lib.rs, as a step relation.
--   Provider     src/lib.rs: the state behind the lock, C_Initialize and C_Finalize; Provider.Sign,
--                Provider.Decrypt, Provider.Encrypt, Provider.Sessions, Provider.Search and
--                Provider.Attributes have the other entry points, Provider.Buffers what they share;
--                Provider.Information has those that answer fixed information, Provider.Unsupported
--                those that answer CKR_FUNCTION_NOT_SUPPORTED. Provider.Calls is a call of any entry
--                point, and what such calls lead to; Provider.FunctionList is `FUNCTION_LIST`, and
--                Provider.OnWindows C_Initialize with the clean-up that it starts on Windows.
--   Windows      src/backend_windows.rs: Windows.Api is what it calls of Windows, as a parameter;
--                Windows.Objects (`Cert`, `Key`, `Trust`), Windows.Attributes (`matches` and
--                `get_attribute`), Windows.Padding and Windows.Cipher (the operations of a key and
--                of a certificate), Windows.Chain (`list_root_trust_objects`) and Windows.Listing
--                (`list_objects`, and the whole as a `Backend`).
--   Macos        src/backend_macos.rs: Macos.Api is what it calls, as a parameter; Macos.Objects
--                (`Cert`, `Key`, `Trust`, `list_objects`), Macos.Attributes (`matches` and
--                `get_attribute`) and Macos.Sign (`Key::sign`).
--   Cleanup      src/cert9_cleanup.rs: Cleanup.Profiles (`find_profile_dir`), against the reference printer Cleanup.Printed; Cleanup.Pass
--                (`run_pass`) and Cleanup.Spawn (`spawn_background_thread`). The environment, the
--                files and SQLite are parameters.
--   Regression   src/backend_other.rs with the feature `nss-regression`: Regression.Manifest
--                (`parse_manifest`, `Block`) and Regression.Objects (`list_objects`), and the script
--                that writes such a manifest, tests/nss-regression/generate_chains.py, in
--                Regression.Generated. A panic is `none`.
--   Tests        tests, and each theorem at an input that meets its hypotheses.
--
-- The correspondence: a method of the manager takes the manager and returns its result with the new
-- manager. What the operating system answers may change at any time, so each call that reaches it
-- takes the state of the system as an argument. Maps are association lists, sets of identifiers
-- lists; times are nanoseconds. A call of the proxy answers `none` if it waits for ever; one that
-- several threads make is steps of Proxy.Threads instead, in any order. A
-- `CK_ULONG` counter wraps round as in a build without overflow checks, and the theorems that need
-- it say that it does not. No definition takes fuel; the client loop of Manager.Drain does, and its
-- theorem says how much is enough. An entry point takes the memory behind each of its pointers and
-- returns it as it is left; a null pointer is `none`.
--
-- Not modelled: the log; panics of the manager's thread and of a thread that holds the lock; other
-- threads while C_Initialize or C_Finalize exchanges the proxy (Proxy.Threads has one proxy); that
-- handles of Windows are freed; how the macOS backend loads Security.framework and converts its
-- types, and a `Backend` made of that backend, which has no operation to encrypt or to decrypt; the
-- sleep between two passes of the clean-up; how generate_chains.py makes certificates.
mod Prelude
pub mod ByteOrder
pub mod Cryptoki
pub mod Util
pub mod Mechanism
pub mod BTreeMap
pub mod Text
pub mod Backend
pub mod Manager
pub mod Proxy
pub mod Provider
pub mod Windows
pub mod Cleanup
pub mod Regression
pub mod Macos
mod Tests
