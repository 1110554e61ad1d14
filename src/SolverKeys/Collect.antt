-- ===== src/SolverKeys/Collect.antt =====
-- The loop of collectSolverPrivateKeyEnvEntries in orchestrator/src/arbitrum_settlement.ts has no bound of its
-- own: it ends because the environment is finite.
use ma_at.Prelude.{
  ◌≢◌, ◌⊎◌, inl, inr, ℕ, zero, suc, ◌+◌, ◌≤◌, ◌<◌, ◌≡◌, refl, ap, ◌∙◌, Option, none, some, List, [],
  ◌∷◌, ◌++◌, length, Text, text_eq_iff, text, show_ℕ, show_ℕ-eq, arith,
}
use ma_at.Prelude.Dict
use ma_at.Prelude.Dict.{Dict, get-delete}
use ma_at.SolverKeys.{
  legacy_name, Env, truthy, get_env, SolverPrivateKeyEnvEntry, prefix, numbered_name, collect_one,
  collect_numbered, or_legacy, collect_solver_private_key_env_entries,
}

append-cancel : (p a b : Text) → p ++ a ≡ p ++ b → a ≡ b
append-cancel [] a b e = e
append-cancel (c ∷ p) a b e = append-cancel p a b (cc e)

numbered_name-eq : (i j : ℕ) → numbered_name i ≡ numbered_name j → i ≡ j
unfolding numbered_name
numbered_name-eq i j e = show_ℕ-eq i j (append-cancel prefix (show_ℕ i) (show_ℕ j) e)

length-delete_le : (k : Text) (m : Env) → length (Dict.delete k m) ≤ length m
unfolding Dict.delete
length-delete_le k [] = omega arith
length-delete_le k ((j, v) ∷ m) = ground (arith, length-delete_le k m)

length-delete : (k v : Text) (m : Env) → Dict.get k m ≡ some v → length (Dict.delete k m) < length m
unfolding Dict.delete Dict.get
length-delete k v [] e = cc
length-delete k v ((j, w) ∷ m) e = ground (arith, length-delete_le k m, length-delete k v m, e)

-- The environment has the variable with a value that is not empty, or it does not.
abbrev pub IsGiven : Env → Text → Text → Type 0
IsGiven env name value = (Dict.get name env ≡ some value) × (value ≢ [])

abbrev pub IsMissing : Env → Text → Type 0
IsMissing env name = (Dict.get name env ≡ none) ⊎ (Dict.get name env ≡ some [])

abbrev pub key_name : ℕ → Text
key_name i = text "ARBITRUM_SOLVER_PRIVATE_KEY_" ++ show_ℕ i

-- The keys from a number on, without a gap, and no key at the number after them.
abbrev pub IsRun : Env → ℕ → List SolverPrivateKeyEnvEntry → Type 0
IsRun env i [] = IsMissing env (key_name i)
IsRun env i (e ∷ es) =
    (e.env_var_name ≡ key_name i) × IsGiven env (key_name i) e.private_key × IsRun env (i + 1) es

get_env-cases :
    (name : Text) (env : Env)
    → ((key : Text) × (get_env name env ≡ some key) × IsGiven env name key)
      ⊎ ((get_env name env ≡ none) × IsMissing env name)
unfolding get_env
get_env-cases name env = go (Dict.get name env) refl
  where
    go :
        (o : Option Text)
        → Dict.get name env ≡ o
        → ((key : Text) × (truthy o ≡ some key) × IsGiven env name key)
          ⊎ ((truthy o ≡ none) × IsMissing env name)
    go none e = inr (refl, inl e)
    go (some []) e = inr (refl, inr e)
    go (some (c ∷ t)) e = inl (c ∷ t, refl, (e, λ d. cc d))

-- A part of the environment that still has every name of the loop's later rounds.
abbrev Covers : Env → ℕ → Env → Type 0
Covers env i part =
    (j : ℕ) → i ≤ j → Dict.get (numbered_name j) part ≡ Dict.get (numbered_name j) env

Covers-delete :
    (env part : Env) (i : ℕ)
    → Covers env i part
    → Covers env (i + 1) (Dict.delete (numbered_name i) part)
Covers-delete env part i covers j later = ground (
  arith,
  get-delete (numbered_name i) (numbered_name j) part,
  text_eq_iff (numbered_name i) (numbered_name j),
  numbered_name-eq i j,
  covers j (omega (arith, later)),
  later,
)

-- What the loop collects from a number on.
abbrev Collected : Env → ℕ → Option (List SolverPrivateKeyEnvEntry) → Type 0
Collected env i found = (es : List SolverPrivateKeyEnvEntry) × (found ≡ some es) × IsRun env i es

collect_numbered-Collected :
    (env part : Env) (fuel i : ℕ)
    → Covers env i part
    → length part < fuel
    → Collected env i (collect_numbered env fuel i)
unfolding collect_numbered numbered_name
collect_numbered-Collected env part zero i covers enough = absurd (omega (arith, enough))
collect_numbered-Collected env part (suc fuel) i covers enough =
    elim (get_env-cases (numbered_name i) env) [
      | inr (e, missing) ↦ rw e ([], refl, missing)
      | inl (key, e, set) ↦
          (let there = covers i (omega arith) ∙ set.0 in
            let (es, found, run) =
              collect_numbered-Collected env (Dict.delete (numbered_name i) part) fuel (i + 1)
                (Covers-delete env part i covers)
                (omega (arith, enough, length-delete (numbered_name i) key part there)) in
            rw e (
              record { env_var_name = numbered_name i; private_key = key } ∷ es,
              ap (collect_one env i (some key)) found,
              (refl, set, run),
            ))
    ]

-- The entries that the environment has for its solvers: those with a number, if number 1 has one; and else
-- the one without a number, or none.
pub data AreKeys (env : Env) (es : List SolverPrivateKeyEnvEntry) : Type 0 where
  with_numbers :
      (first : SolverPrivateKeyEnvEntry) (rest : List SolverPrivateKeyEnvEntry)
      → es ≡ first ∷ rest
      → IsRun env 1 (first ∷ rest)
      → AreKeys env es
  without_number :
      (key : Text)
      → IsMissing env (key_name 1)
      → IsGiven env (text "ARBITRUM_SOLVER_PRIVATE_KEY") key
      → es ≡ record { env_var_name = text "ARBITRUM_SOLVER_PRIVATE_KEY"; private_key = key } ∷ []
      → AreKeys env es
  without_key :
      IsMissing env (key_name 1)
      → IsMissing env (text "ARBITRUM_SOLVER_PRIVATE_KEY")
      → es ≡ []
      → AreKeys env es

legacy-AreKeys :
    (env : Env)
    → IsMissing env (key_name 1)
    → (es : List SolverPrivateKeyEnvEntry) × (or_legacy env (some []) ≡ some es) × AreKeys env es
legacy-AreKeys env first = elim (get_env-cases legacy_name env) [
  | inr (e, missing) ↦ rw e ([], refl, without_key first missing refl)
  | inl (key, e, set) ↦ rw e (_, refl, without_number key first set refl)
]

-- Whatever the environment holds, the loop ends, and it collects the keys from 1 up to the first number
-- that has none, in order; where number 1 has none, the key without a number, if there is one, is
-- the only entry.
pub collect-AreKeys :
    (env : Env)
    → (es : List SolverPrivateKeyEnvEntry) × (collect_solver_private_key_env_entries env ≡ some es)
      × AreKeys env es
unfolding collect_solver_private_key_env_entries
collect-AreKeys env =
    go (collect_numbered-Collected env env (suc (length env)) 1 (λ j later. refl) (omega arith))
  where
    go :
        Collected env 1 (collect_numbered env (suc (length env)) 1)
        → (es : List SolverPrivateKeyEnvEntry) × (or_legacy env
              (collect_numbered env (suc (length env)) 1)
            ≡ some es)
          × AreKeys env es
    go ([], found, run) = rw found (legacy-AreKeys env run)
    go (e ∷ es, found, run) = (e ∷ es, ap (or_legacy env) found, with_numbers e es refl run)
