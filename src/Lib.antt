-- ===== src/Lib.antt =====
-- A model of the command line tooling of the Filecoin PoRep Market (porep_tooling_cli.py and cli/):
-- the migration of storage deals from the first version of the market (V1) to the second (V2),
-- the client's transactions, and the encodings of piece CIDs.
--
-- The parts, and the files that model them:
--
-- - Prelude and below: booleans, lists, results, integers, `int.bit_length`; the lemmas on them.
-- - Uvarint: the varints of cli/services/cid_converter.py.
-- - PieceSize: the piece's tree height and padding in cli/services/cid_converter.py.
-- - Bytes: `uint_to_bytes` of cli/utils.py.
-- - Base32, Cid: the CIDs of cli/services/cid_converter.py, with `base64.b32encode` and `b32decode`
--   written out, and the conversion of a V1 piece CID to V2.
-- - PieceSet: the Merkle tree over the pieces of a deal, cli/services/piece_set_commitment.py; `Tree`
--   is the tree alone, over the hash of two nodes.
-- - Chain: the views of cli/services/contracts and cli/migration/legacy_porep_market.py, and the
--   answers of the node at one moment, `Chain`.
-- - Migration.Claim, Plan, Paging, Sector, Source, Pair: cli/migration/service.py. `Claim` and
--   `Plan` are the pure part, claims, terms, the adoption plan and its batches; `Paging` reads the
--   IDs of an adapter; `Source` is what `MigrationService` reads and checks of a V1 deal, and `Pair`
--   what it does with a V1 deal and the V2 deal that takes over its claims.
-- - Session: a run of a command: its errors, the node, the signer and the user as `Node`, and the
--   log of the answers and the broadcast transactions.
-- - Transactions: `sign_and_send_tx` of cli/services/contract_service.py, `confirm` of cli/utils.py.
-- - Migration.Adopt, Finish, Close: `adopt_v1_claims`, `finish_migration` and `close_v1_deal` of
--   cli/migration/client.py.
-- - Codes: the enumerations of cli/services/contracts and their parsers `from_web3`.
-- - InitDeal: `init_deal` of cli/commands/client/init_deal.py.
-- - Deposit: cli/commands/client/deposit_for_deals.py, with the deposit amount of
--   cli/commands/utils.py and `deposit_to_filecoinpay` of cli/commands/client/_utils.py.
-- - Registry: pausing, blocking, registering and updating storage providers, cli/commands/utils.py
--   and cli/services/contracts/sp_registry.py; `Views` is the abstract registry.
-- - Confirm: the prompts of cli/utils.py, line by line; `Trusted` follows the sessions that are no
--   longer prompted over a run.
-- - Update: cli/services/self_update.py, over git as `Git`, with `get_env` and `string_to_bool`.
-- - Manifest: the fetch and the checks of a manifest in cli/commands/utils.py.
-- - Curio: cli/services/curio_market_client.py, over the endpoints' answers as `Market`.
-- - SubmitDdo: cli/commands/client/submit_ddo.py; `Loop` is its loop over the plan.
-- - Examples: the data of a small market, and runs on it.
--
-- How the state of the program appears here. A command reads the chain, prompts, sends, and
-- reads again. The world that the node, the signer and the user live in is a type parameter `W`:
-- `Node.chain` reads a snapshot of it, and only a prompt, a transaction or a sleep changes it. The
-- commands are functions of the monad `Exec`, which carries the world, the log, and the flag of a
-- confirmed batch. What the program prints is left out. An exception is an error value: a
-- constructor for each place that raises, with what its message names.
--
-- Numbers are naturals where the program cannot reach a negative one: epochs, amounts, IDs,
-- addresses, the hash of a transaction. A difference is cut off at zero where only its
-- comparison with a positive number is used. A `set` or `frozenset` of IDs is a list, compared
-- as a set. Bytes are numbers below 256. `cbor2.dumps`, `multibase.decode`,
-- keccak, SHA-256, the ABI encoder, Python's floats in the amount of a deposit, the resolution
-- of a host, git, the reading of a text as an integer, and the HTTP answers of the endpoints are
-- parameters; so are the lower-casing and stripping of a text in `Codes`, which `Confirm` writes out
-- for ASCII.
--
-- Loops that Python bounds by data run on fuel: one round per bit group in `encode_uvarint` (the
-- value plus one), a slice per extension in `batches`, a letter in `decode_base32_cid`, a page per ID
-- plus one in `all_adapter_ids`, and a doubling per leaf in `build_tree`; the theorems on these
-- functions say that the fuel is enough. `decode_uvarint` recurs over the bytes from its offset on.
-- `wait_past_epoch` polls without a limit; a run is followed for any number of polls, and
-- `still_waiting` says that it goes on.
--
-- The lines that a user enters, the answers of the user to each retry of a fetch, and the responses
-- to a fetch are sequences; a prompt that they do not answer is an error of its own.
--
-- Not modelled: printing, the databases, the signing and sending of HTTP and RPC requests, the keys,
-- and the other commands of cli/commands.
pub mod Prelude
pub mod Uvarint
pub mod PieceSize
pub mod Bytes
pub mod Base32
pub mod Cid
pub mod PieceSet
pub mod Chain
pub mod Migration
pub mod Session
pub mod Transactions
pub mod Codes
pub mod Deposit
pub mod InitDeal
pub mod Registry
pub mod Confirm
pub mod Update
pub mod Manifest
pub mod Curio
pub mod SubmitDdo
pub mod Examples
