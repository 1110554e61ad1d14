-- ===== src/Examples/Keys.antt =====
-- An environment with the keys 1, 2 and 4, and two keys with one address.
use ma_at.Prelude.{◌≡◌, ◌↔◌, refl, some, List, [], ◌∷◌, text, text_eq, show_ℕ}
use ma_at.Prelude.Dict
use ma_at.SolverKeys.{
  Env, SolverPrivateKeyEnvEntry, numbered_name, get_env, collect_numbered,
  collect_solver_private_key_env_entries, loaded, load_solver_accounts,
}
use ma_at.SolverKeys.Collect.{AreKeys, collect-AreKeys}
use ma_at.SolverKeys.Resolve.{AllApart, load_solver_accounts_iff}

abbrev env : Env
env =
    (text "ARBITRUM_SOLVER_PRIVATE_KEY_4", text "d")
    ∷ (text "ARBITRUM_SOLVER_PRIVATE_KEY_1", text "a")
    ∷ (text "ARBITRUM_SOLVER_PRIVATE_KEY_2", text "b")
    ∷ []

abbrev one_and_two : List SolverPrivateKeyEnvEntry
one_and_two =
    record { env_var_name = text "ARBITRUM_SOLVER_PRIVATE_KEY_1"; private_key = text "a" }
    ∷ record { env_var_name = text "ARBITRUM_SOLVER_PRIVATE_KEY_2"; private_key = text "b" }
    ∷ []

stops_at_the_gap : collect_solver_private_key_env_entries env ≡ some one_and_two
unfolding collect_solver_private_key_env_entries collect_numbered numbered_name get_env Dict.get
    text text_eq show_ℕ
stops_at_the_gap = refl

collect-AreKeys_example :
    (es : List SolverPrivateKeyEnvEntry) × (collect_solver_private_key_env_entries env ≡ some es)
    × AreKeys env es
collect-AreKeys_example = collect-AreKeys env

load_solver_accounts_iff_example :
    (load_solver_accounts (λ key. key) env
      ≡ loaded
          (record { env_var_name = text "ARBITRUM_SOLVER_PRIVATE_KEY_1"; address = text "a" })
          (record { env_var_name = text "ARBITRUM_SOLVER_PRIVATE_KEY_2"; address = text "b" } ∷ []))
    ↔ AllApart (λ key. key) one_and_two
load_solver_accounts_iff_example =
    load_solver_accounts_iff (λ key. key) env
      (record { env_var_name = text "ARBITRUM_SOLVER_PRIVATE_KEY_1"; private_key = text "a" })
      (record { env_var_name = text "ARBITRUM_SOLVER_PRIVATE_KEY_2"; private_key = text "b" } ∷ [])
      stops_at_the_gap
