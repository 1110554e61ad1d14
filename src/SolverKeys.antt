-- ===== src/SolverKeys.antt =====
-- How orchestrator/src/arbitrum_settlement.ts finds its solvers' keys in the environment, and the accounts of
-- these keys. The environment has each variable once; an empty value counts as none. The address of
-- a key is a parameter.
pub mod Collect
pub mod Resolve
use ma_at.Prelude.{
  ℕ, zero, suc, ◌+◌, ◌*◌, ◌-◌, Bool, true, false, ◌&&◌, Option, none, some, List, [], ◌∷◌, ◌++◌,
  if◌then◌else◌, ltb, leb, length, Text, text, starts_with, show_ℕ, addr_key, map,
}
use ma_at.Prelude.Dict
use ma_at.Prelude.Dict.{Dict}
use ma_at.Destination.{drop}

abbrev pub Env : Type 0
Env = Dict Text

abbrev pub truthy : Option Text → Option Text
truthy none = none
truthy (some []) = none
truthy (some (c ∷ t)) = some (c ∷ t)

-- `env[name]`, if it counts as set.
unfoldable pub get_env : Text → Env → Option Text
get_env name env = truthy (Dict.get name env)

pub record SolverPrivateKeyEnvEntry : Type 0 where
  pub env_var_name : Text
  pub private_key : Text

abbrev pub legacy_name : Text
legacy_name = text "ARBITRUM_SOLVER_PRIVATE_KEY"

abbrev pub prefix : Text
prefix = text "ARBITRUM_SOLVER_PRIVATE_KEY_"

unfoldable pub numbered_name : ℕ → Text
numbered_name i = prefix ++ show_ℕ i

module _ (env : Env) where
  -- One round of the loop, with what the later rounds collect.
  abbrev pub collect_one :
      ℕ
      → Option Text
      → Option (List SolverPrivateKeyEnvEntry)
      → Option (List SolverPrivateKeyEnvEntry)
  collect_one i none later = some []
  collect_one i (some key) none = none
  collect_one i (some key) (some es) =
      some (record { env_var_name = numbered_name i; private_key = key } ∷ es)

  -- The loop from a number on: nothing, if its fuel is out.
  unfoldable pub collect_numbered : ℕ → ℕ → Option (List SolverPrivateKeyEnvEntry)
  collect_numbered zero i = none
  collect_numbered (suc fuel) i =
      collect_one i (get_env (numbered_name i) env) (collect_numbered fuel (i + 1))

  abbrev pub legacy_entry : Option Text → List SolverPrivateKeyEnvEntry
  legacy_entry none = []
  legacy_entry (some key) = record { env_var_name = legacy_name; private_key = key } ∷ []

  abbrev pub or_legacy :
      Option (List SolverPrivateKeyEnvEntry) → Option (List SolverPrivateKeyEnvEntry)
  or_legacy none = none
  or_legacy (some []) = some (legacy_entry (get_env legacy_name env))
  or_legacy (some (e ∷ es)) = some (e ∷ es)

  -- A round for each variable, and one more, is enough.
  unfoldable pub collect_solver_private_key_env_entries : Option (List SolverPrivateKeyEnvEntry)
  unfolding collect_numbered
  collect_solver_private_key_env_entries = or_legacy (collect_numbered (suc (length env)) 1)

  abbrev both_set : Option Text → Option Text → Option Text
  both_set (some first) (some legacy) = some (
      text
        "ARBITRUM_SOLVER_PRIVATE_KEY (legacy) is also set but is ignored because ARBITRUM_SOLVER_PRIVATE_KEY_1 is present - remove one to avoid confusion")
  both_set _ _ = none

  unfoldable pub legacy_solver_key_ignored_note : Option Text
  legacy_solver_key_ignored_note =
      both_set (get_env (numbered_name 1) env) (get_env legacy_name env)

pub record ResolvedSolverAccount : Type 0 where
  pub env_var_name : Text
  pub address : Text

pub data Resolution : Type 0 where
  resolved : List ResolvedSolverAccount → Resolution
  duplicate : Text → Resolution

-- What the block does that loads the accounts when the process starts.
pub data Start : Type 0 where
  exits : Start
  loaded : ResolvedSolverAccount → List ResolvedSolverAccount → Start

pub duplicate_reason : Text → Text → Text → Text
duplicate_reason address claimed_by name =
    text "duplicate solver address "
    ++ (address ++ (text ": configured under both " ++ (claimed_by ++ (text " and " ++ name))))

module _ (address_of : Text → Text) where
  abbrev pub account : SolverPrivateKeyEnvEntry → ResolvedSolverAccount
  account e = record { env_var_name = e.env_var_name; address = address_of e.private_key }

  -- What an entry whose address is claimed, or not, makes of the rest.
  abbrev pub after_claim : SolverPrivateKeyEnvEntry → Option Text → Resolution → Resolution
  after_claim e (some claimed_by) rest =
      duplicate (duplicate_reason (address_of e.private_key) claimed_by e.env_var_name)
  after_claim e none (resolved out) = resolved (account e ∷ out)
  after_claim e none (duplicate reason) = duplicate reason

  unfoldable pub resolve_from : Dict Text → List SolverPrivateKeyEnvEntry → Resolution
  resolve_from seen_by [] = resolved []
  resolve_from seen_by (e ∷ es) =
      let lower = addr_key (address_of e.private_key) in
      after_claim e (Dict.get lower seen_by)
        (resolve_from (Dict.set lower e.env_var_name seen_by) es)

  unfoldable pub resolve_solver_accounts : List SolverPrivateKeyEnvEntry → Resolution
  unfolding resolve_from
  resolve_solver_accounts entries = resolve_from [] entries

  -- The accounts that the process has, the first of which is the default one; or it exits.
  abbrev pub loaded_from : List SolverPrivateKeyEnvEntry → Resolution → Start
  loaded_from [] r = exits
  loaded_from (e ∷ es) (duplicate reason) = exits
  loaded_from (e ∷ es) (resolved out) = loaded (account e) (map account es)

  abbrev start : Option (List SolverPrivateKeyEnvEntry) → Start
  start none = exits
  start (some es) = loaded_from es (resolve_solver_accounts es)

  unfoldable pub load_solver_accounts : Env → Start
  load_solver_accounts env = start (collect_solver_private_key_env_entries env)

  abbrev addresses : Start → List Text
  addresses exits = []
  addresses (loaded first others) = first.address ∷ map (λ a. a.address) others

  unfoldable pub configured_solver_addresses : Env → List Text
  configured_solver_addresses env = addresses (load_solver_accounts env)
