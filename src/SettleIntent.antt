-- ===== src/SettleIntent.antt =====
-- orchestrator/settle_intent.js, the child process that pays on Solana: its checks of the environment and
-- the steps that it is made of. An action returns, throws, exits with a code, or is still running when
-- its fuel is out. The Solana client is a parameter.
pub mod Confirm
pub mod Script
pub mod Ensures
pub mod Ends
use ma_at.Prelude.{
  ℕ, ◌/◌, ◌≤◌, Bool, true, false, ◌&&◌, ◌||◌, ◌==◌, Option, none, some, List, [], ◌∷◌, ◌++◌, leb,
  if◌then◌else◌, length, map, to_lower, Text, text, show_ℕ,
}

-- BigInt of the amount, which the model keeps as its number.
unfoldable pub wei_to_lamports : ℕ → ℕ
wei_to_lamports wei = wei / 1000000000

unfoldable pub is_hex : ℕ → Bool
is_hex c = (leb b'0' c && leb c b'9') || (leb b'a' c && leb c b'f') || (leb b'A' c && leb c b'F')

unfoldable pub all_hex : Text → Bool
unfolding is_hex
all_hex [] = true
all_hex (c ∷ t) = is_hex c && all_hex t

unfoldable pub strip_prefix : Text → Text
strip_prefix (a ∷ b ∷ t) = if (a == b'0') && ((b == b'x') || (b == b'X')) then t else a ∷ b ∷ t
strip_prefix t = t

unfoldable pub normalize_proof_hash_hex : Text → Option Text
unfolding strip_prefix all_hex
normalize_proof_hash_hex input =
    let stripped = strip_prefix input in
    if (length stripped == 64) && all_hex stripped then some (map to_lower stripped) else none

pub data Outcome (A : Type 0) : Type 0 where
  done : A → Outcome A
  threw : Text → Outcome A
  exits : ℕ → Outcome A
  unfinished : Outcome A

-- What the process does that its parent or the chain sees.
pub data Act : Type 0 where
  printed : Text → Act  -- SETTLING_SIG with the signature
  heard_go : Act
  sent : Text → Act  -- sendRawTransaction, by its signature
  confirmed : Text → Act  -- a status that says so
  submitted : ℕ → Act  -- submitIntent(...).rpc(), which signs and sends; with the lamports

-- The process: what it did, newest first, and the outside.
pub record Process (W : Type 0) : Type 0 where
  pub acts : List Act
  pub outside : W

abbrev pub Script : Type 0 → Type 0 → Type 0
Script W A = Process W → Outcome A × Process W

module _ {W A : Type 0} where
  unfoldable pub pure : A → Script W A
  pure a p = (done a, p)

  unfoldable pub throw : Text → Script W A
  throw e p = (threw e, p)

  unfoldable pub exit : ℕ → Script W A
  exit code p = (exits code, p)

module _ {W A B : Type 0} where
  abbrev pub continue : Outcome A → (A → Script W B) → Script W B
  continue (done a) f p = f a p
  continue (threw e) f p = (threw e, p)
  continue (exits code) f p = (exits code, p)
  continue unfinished f p = (unfinished, p)

  infixl 10 ◌>>=◌ ◌>>◌
  unfoldable pub ◌>>=◌ : Script W A → (A → Script W B) → Script W B
  ◌>>=◌ m f p = let (r, p') = m p in continue r f p'

  abbrev pub ◌>>◌ : Script W A → Script W B → Script W B
  m >> n = m >>= λ _. n

module _ {W : Type 0} where
  unfoldable pub act : Act → Script W Unit
  act a p = (done tt, record p { acts = a ∷ p.acts })

-- How a call of the network ends: with a value, with an error, or not at all.
pub data Call (A : Type 0) : Type 0 where
  resolves : A → Call A
  rejects : Text → Call A
  hangs : Call A

abbrev pub default_rpc_timeout_ms : ℕ
default_rpc_timeout_ms = 15000

pub timeout_message : Text → ℕ → Text
timeout_message label ms = label ++ (text " timed out after " ++ (show_ℕ ms ++ text "ms"))

abbrev pub raced : {A : Type 0} → Text → ℕ → Call A → Outcome A
raced label ms (resolves a) = done a
raced label ms (rejects e) = threw e
raced label ms hangs = threw (timeout_message label ms)

-- `withTimeout`, of a call that is given its time limit: the outside's state after it is that of the
-- moment when the race is decided.
unfoldable pub with_timeout : {W A : Type 0} → (ℕ → W → Call A × W) → ℕ → Text → Script W A
with_timeout call ms label p =
    let (r, o) = call ms p.outside in (raced label ms r, record p { outside = o })
