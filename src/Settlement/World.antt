-- ===== src/Settlement/World.antt =====
-- What the settlement works on: the process's ledgers and files, the reservations, and the outside
-- (chains, clock, proof files), which is reached through the functions of `Outside` alone. An
-- action returns, throws, or is still running when its fuel is out.
use ma_at.Prelude.{ℕ, ◌/◌, Bool, Option, List, ◌∷◌, Text}
use ma_at.IntentStatus.{OnChainIntent}
use ma_at.ProofOutput.{ProofOutputJson}
use ma_at.ArbitrumLedger.{Ledger, ArbitrumLedgerEntry}
use ma_at.SettledLedger.{SettledLedger, LedgerEntry}
use ma_at.IntentState.{StateDir}
use ma_at.Routing.Book.{Book}

pub data Reply {ℓ} (A : Type ℓ) : Type ℓ where
  ok : A → Reply A
  threw : Text → Reply A
  unfinished : Reply A

-- A write to IntentManager, with the intent's identifier first.
pub data Transaction : Type 0 where
  post_collateral : Text → ℕ → Transaction
  confirm_settlement : Text → Text → Transaction
  slash_solver : Text → Transaction

pub record SolanaPayoutResult : Type 0 where
  pub ok : Bool
  pub sig : Option Text
  pub error : Option Text

pub record TxOutcome : Type 0 where
  pub ok : Bool
  pub tx_hash : Option Text
  pub error : Option Text

-- A proof's JSON file: none for one that is missing, and within it one that does not parse.
abbrev pub ProofFile : Type 0
ProofFile = Option (Option ProofOutputJson)

pub data Receipt : Type 0 where
  success reverted : Receipt

-- The code that is not under src: viem with its RPC nodes, the Solana connection, the file system
-- under ZK_DIR and the clock. Each function takes the outside's state and returns the next one.
pub record Outside (W : Type 0) : Type 0 where
  pub now_ms : W → ℕ
  pub sleep : ℕ → W → W
  pub get_balance : Text → W → Reply ℕ × W
  pub read_intent : Text → W → Reply OnChainIntent × W
  pub sign : Text → Transaction → W → Reply Text × W  -- the hash of the signed transaction
  pub send_and_wait : Text → W → Reply Receipt × W  -- sendRawTransaction, then the receipt
  pub get_receipt : Text → W → Reply Receipt × W
  pub signature_landed : Text → W → Reply Bool × W
  pub proof_json : Text → W → ProofFile
  pub proof_bin : Text → W → Option Text  -- the digest of the proof's binary, if it is there

-- What the process did to the outside or learnt from it, newest last in time and first in the list.
-- A broadcast is kept with the entries that the two ledgers had for its intent at that moment.
pub data Event : Type 0 where
  broadcast : Transaction → Text → Option ArbitrumLedgerEntry → Option LedgerEntry → Event
  payout : Text → Text → Text → Event  -- an intent, the solver whose deps pay, and the proof hash
  saw : Text → OnChainIntent → Event
  checked : Text → Bool → Event  -- a Solana signature, and whether it has landed

pub record Side (W : Type 0) : Type 0 where
  pub settled : SettledLedger
  pub states : StateDir
  pub alerts : List Text
  pub outside : W

pub record World (W : Type 0) : Type 0 where
  pub ledger : Ledger
  pub book : Book
  pub reservation_resolved : Bool  -- the local variable of the dispatch under way
  pub trace : List Event
  pub side : Side W
  pub open side use *

abbrev pub Exec : Type 0 → Type 0 → Type 0
Exec W A = World W → Reply A × World W

module _ {W A : Type 0} where
  unfoldable pub pure : A → Exec W A
  pure a w = (ok a, w)

  unfoldable pub throw : Text → Exec W A
  throw e w = (threw e, w)

  unfoldable pub out_of_fuel : Exec W A
  out_of_fuel w = (unfinished, w)

  -- `try { m } catch (err) { handler }`
  abbrev catching : Reply A → (Text → Exec W A) → Exec W A
  catching (ok a) handler w = (ok a, w)
  catching (threw e) handler w = handler e w
  catching unfinished handler w = (unfinished, w)

  unfoldable pub catch : Exec W A → (Text → Exec W A) → Exec W A
  catch m handler w = let (r, w') = m w in catching r handler w'

  -- `try { m } finally { last }`, with a `last` that does not throw
  unfoldable pub finally : Exec W A → (World W → World W) → Exec W A
  finally m last w = let (r, w') = m w in (r, last w')

module _ {W A B : Type 0} where
  abbrev pub continue : Reply A → (A → Exec W B) → Exec W B
  continue (ok a) f w = f a w
  continue (threw e) f w = (threw e, w)
  continue unfinished f w = (unfinished, w)

  infixl 10 ◌>>=◌ ◌>>◌
  unfoldable pub ◌>>=◌ : Exec W A → (A → Exec W B) → Exec W B
  ◌>>=◌ m f w = let (r, w') = m w in continue r f w'

  abbrev pub ◌>>◌ : Exec W A → Exec W B → Exec W B
  m >> n = m >>= λ _. n

module _ {W : Type 0} where
  -- A step that only changes the process's state.
  unfoldable pub modify : (World W → World W) → Exec W Unit
  modify f w = (ok tt, f w)

  abbrev pub record_event : Event → World W → World W
  record_event e w = record w { trace = e ∷ w.trace }

module _ {W : Type 0} where
  -- The world with another state of the outside.
  abbrev pub move : W → World W → World W
  move o w = record w { side = record w.side { outside = o } }

module _ {W A : Type 0} where
  -- A call of the outside.
  unfoldable pub outward : (W → Reply A × W) → Exec W A
  outward call w = let (r, o) = call w.outside in (r, move o w)

module _ {W : Type 0} (out : Outside W) where
  -- Date.now() and Math.floor(Date.now() / 1000)
  abbrev pub now_ms : World W → ℕ
  now_ms w = out.now_ms w.outside

  abbrev pub now_sec : World W → ℕ
  now_sec w = out.now_ms w.outside / 1000

  unfoldable pub sleep : ℕ → Exec W Unit
  sleep ms w = (ok tt, move (out.sleep ms w.outside) w)
