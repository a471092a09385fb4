-- ===== src/Lib.antt =====
-- DuckPass is a password manager: a library over one encrypted vault file, commands on top of it, and an
-- agent that keeps an unlocked vault in memory and serves it to clients on a socket.
--
-- The parts and their files (paths are from the root of the repository):
--
-- * Vault models src/vault.cpp and include/duckpass/vault.h. Vault.Entries has `VaultEntry` and the
--   operations of `Vault`, Vault.Wire the little-endian primitives, Vault.Serial `serialize` and
--   `deserialize`, Vault.File `load_vault` (as `load_blob`, on the bytes of the file) and
--   `serialize_and_encrypt_vault`.
-- * Crypto models src/crypto.cpp. `CryptoHandler` is what the vault uses of it; Crypto.Gcm has
--   `encrypt_data` and `decrypt_data` over the EVP calls of OpenSSL, which are a parameter (`Evp`) with their
--   documented behaviour (`IsGcm`); Crypto.Handler puts these together. Argon2id is a parameter with no law.
--   Crypto.Password has `generate_password`; its loop has fuel, one round more than the password has
--   characters, which is enough if each batch of random bytes has a byte that can be used.
-- * Storage models src/local_storage.cpp. Storage.Disk is a disk from paths to contents, with the history of
--   its states, so that a crash is any state of the history. Storage.Read, Storage.Write and Storage.Lock have
--   `read_file`, `write_file_atomic` and `acquire_file_lock`; what the system answers to each call is a list
--   that is an argument, with interruptions, partial transfers and failures.
-- * Totp models src/totp.cpp; HMAC-SHA1 is a parameter. Text.Decimal is `std::to_string`.
-- * Fuzzy models `fuzzy_match` of src/utils.cpp.
-- * Service models src/vault_service.cpp: Service.State the fields and the constructor, Service.Merge
--   `merge_disk_state_with_lock_held`, Service.Save `save`, Service.Rekey `rekey`, Service.Entries the
--   operations on entries, Service.Search `list_entries`. An operation gets the service, the storage and an
--   `Env` with the clock and the answers of the system, and gives a result with the service and the storage
--   after it, also where the code throws. std::ranges::sort is not stable and a parameter of the search.
-- * Ipc models src/ipc.cpp: Ipc.Wire the strings of a payload, Ipc.Packet the packets, Ipc.Client the
--   operations of `IpcClient`, Ipc.Opcode the two enumerations. `append_str`, `append_sec_str`,
--   `extract_str` and `extract_sec_str` of src/agent_server.cpp are the same functions again.
-- * Agent models src/agent_server.cpp: Agent.State the fields, `lock`, `unlock`, `stop` and
--   `check_idle_timeout`, Agent.Commands `handle_client`, Agent.Run the loop of `run` over a list of rounds.
--   Agent.Served puts the client and the agent together.
-- * Hibp models src/hibp_checker.cpp: `check_password` over a network that is a parameter, with the requests
--   and waits that it makes as a list. Its loop over retries has fuel 4, one round for each request that it can
--   make, and its loop over the response a round for each byte.
-- * Entropy models src/entropy_worker_main.cpp as Entropy.Worker and `evaluate` of src/entropy_evaluator.cpp as
--   Entropy.Evaluate; Entropy.Talk puts the two ends of the pipes together. What the calls answer is a list;
--   when it is used up, the deadline has passed. The wait for a
--   worker that was killed is taken to succeed. A `double` is its 64 bits; zxcvbn is a parameter.
-- * Audit models src/audit_engine.cpp: Audit.Scan the loop over the entries, Audit.Reuse the groups of equal
--   passwords, Audit.Run the futures and `run_audit`, Audit.Print the printed report. Crypto.Hash has the hashes
--   in hexadecimal digits; the hash functions of OpenSSL are a parameter. The order in which the hash table
--   gives its groups is a parameter of which only `IsOrder` is known.
-- * Secure has Secure.Buffer for `SecureString` of include/duckpass/secure_allocator.h and Secure.Protected for
--   src/protected_string.cpp, over the interface of Crypto.
-- * Terminal models `read_line_interactive` and `read_password` of src/terminal_utils.cpp, on the bytes that the
--   terminal gives.
-- * Shell models `run_interactive_shell` of src/shell_command.cpp: Shell how a line becomes a command with its
--   arguments, Shell.Session the commands that change the vault, on the lines that are typed for them, with the
--   list that TAB completes and the requests to the agent to lock. A command whose lines run out waits.
-- * Export models the writers of src/export_command.cpp, Export.Csv `write_csv` and Export.Json `write_json`.
-- * Prelude has the shared names; Prelude.Result has the exceptions of include/duckpass/exceptions.h, as values.
-- * Tests has concrete inputs. Tests.Toy has a transparent cipher that satisfies the hypotheses on OpenSSL.
--
-- The storage keeps no permissions. A stop is between two calls; what `fsync` keeps through a loss of power is
-- not modelled, and a rename is one step, as POSIX has it; the sync of the directory is
-- not modelled, so a crash keeps what was renamed. A path is a sequence of bytes, and the backup and the
-- temporary file of a path are longer paths in the same directory. A vault that is loaded reads the clock
-- once. Running out of memory and, but for the operations of `SecureString`, the cleansing of buffers are not
-- modelled. Outside Secure a protected string is its text, and a `SecureString` the list of its characters. The agent serves one client at a time, on one thread.
--
-- Not modelled are the other commands, what the shell prints, the modes of the terminal and the clipboard, which are
-- input and output around these operations; the configuration, which is environment lookup; the semaphore of the audit, which limits
-- how many checks run at once and changes no result; the vendored libraries and the desktop application.

pub mod Prelude
pub mod Text
pub mod Crypto
pub mod Vault
pub mod Storage
pub mod Totp
pub mod Fuzzy
pub mod Service
pub mod Ipc
pub mod Agent
pub mod Export
pub mod Hibp
pub mod Entropy
pub mod Audit
pub mod Secure
pub mod Terminal
pub mod Shell
mod Tests
