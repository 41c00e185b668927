-- ===== src/Session.antt =====
-- A run of a command: what the program asks of the node and of the user, the log of the answers
-- and of the transactions that were broadcast, and the errors that end a command.
use filecoin_porep_market_to.Prelude.{ℕ, Bool, List, [], ◌∷◌, Result, ok, err, if◌then◌else◌}
use filecoin_porep_market_to.Chain.{Chain, ProviderInput, OfferInput}
use filecoin_porep_market_to.Migration.Claim.{MigrationError}
use filecoin_porep_market_to.Migration.Pair.{DataCapTransferParams}

-- The contract calls that are signed and sent.
pub data Tx : Type 0 where
  submit_datacap_batch : DataCapTransferParams → ℕ → Tx
  finish_datacap_posting : ℕ → Tx
  terminate_rail : ℕ → Tx
  settle_terminated_rail : ℕ → Tx
  create_validator : ℕ → Tx
  deposit_and_approve : ℕ → ℕ → ℕ → Tx
  create_rail : ℕ → Tx
  deposit_with_permit : ℕ → ℕ → Tx
  provider_registration : ProviderInput → Tx
  payee_change : ℕ → ℕ → Tx
  space_change : ℕ → ℕ → Tx
  provider_pause : ℕ → Tx
  provider_unpause : ℕ → Tx
  provider_block : ℕ → Tx
  provider_unblock : ℕ → Tx
  offer_creation : OfferInput → Tx

pub data Event : Type 0 where
  answered : Bool → Event
  broadcast : Tx → Event

-- What ends a command: `click.Abort`, or an exception with what it is about.
pub data CliError : Type 0 where
  aborted : CliError
  migration : MigrationError → CliError
  pending_transactions : CliError
  operation_failed : CliError
  reverted : CliError
  not_sent : CliError
  not_the_client : CliError
  no_rail_yet : CliError
  wrong_state : CliError
  rail_not_prepared : CliError
  claims_missing : CliError
  bytes_outside_padding : CliError
  readback_mismatch : MigrationError → CliError
  lockup_too_long : ℕ → CliError
  cannot_operate : CliError
  still_waiting : CliError
  validator_mismatch : CliError
  validator_not_found : CliError
  operator_not_approved : CliError
  balance_too_low : CliError
  no_rail_set : CliError
  no_validator_set : CliError
  posting_unfinished : CliError
  provider_not_found : CliError
  already_paused : CliError
  not_paused : CliError
  already_blocked : CliError
  not_blocked : CliError
  assertion_failed : CliError

-- The node, the signer and the user, over an abstract state of the world. `confirm` is the
-- user's answer to a prompt, `pending` that the sender has pending transactions, `build` that a
-- transaction can be built, `sign` that it can be signed, `call` that it succeeds as a call,
-- `send` the hash and the status of the receipt, and `sleep` the time between two polls.
pub record Node (W : Type 0) : Type 0 where
  pub chain : W → Chain
  pub confirm : W → Bool × W
  pub pending : W → Bool
  pub build : Tx → W → Bool
  pub sign : Tx → W → Bool
  pub call : Tx → W → Bool
  pub send : Tx → W → (ℕ × Bool) × W
  pub sleep : W → W
  pub dry_run : Bool
  pub client : ℕ

-- The world, what was answered and broadcast, the last first, and whether the prompts are
-- switched off inside a confirmed batch (`_BATCH_CONFIRMED`).
pub record Session (W : Type 0) : Type 0 where
  pub world : W
  pub log : List Event
  pub batch_confirmed : Bool

abbrev pub Exec : Type 0 → Type 0 → Type 0
Exec W A = Session W → Result CliError A × Session W

module _ {W A : Type 0} where
  abbrev pub pure : A → Exec W A
  pure a s = (ok a, s)

  abbrev pub raise : CliError → Exec W A
  raise e s = (err e, s)

  -- `except MigrationError as exc: raise click.ClickException(str(exc)) from exc`
  abbrev pub lift_error : (MigrationError → CliError) → Result MigrationError A → Exec W A
  lift_error f (ok a) = pure a
  lift_error f (err e) = raise (f e)

  abbrev pub gets : (W → A) → Exec W A
  gets f s = (ok (f s.world), s)

infixl 5 ◌>>=◌ ◌>>◌
abbrev pub ◌>>=◌ : {W A B : Type 0} → Exec W A → (A → Exec W B) → Exec W B
◌>>=◌ m f s = let (r, s') = m s in elim r [ ok a ↦ f a s' | err e ↦ (err e, s') ]

abbrev pub ◌>>◌ : {W B : Type 0} → Exec W (Unit {0}) → Exec W B → Exec W B
m >> k = m >>= λ _. k

abbrev pub raise_when : {W : Type 0} → Bool → CliError → Exec W (Unit {0})
raise_when b e s = (if b then err e else ok tt, s)

-- The transactions of a log, the last first.
abbrev pub sends : List Event → List Tx
sends [] = []
sends (answered b ∷ log) = sends log
sends (broadcast tx ∷ log) = tx ∷ sends log
