-- ===== src/SolverKeys/Resolve.antt =====
-- The check of orchestrator/src/arbitrum_settlement.ts that no two keys have one address.
use ma_at.Prelude.{
  ◌≡◌, ap, ◌≢◌, ◌↔◌, refl, Option, none, some, List, [], ◌∷◌, Text, text_eq_iff, addr_key, map,
  arith,
}
use ma_at.Prelude.Dict
use ma_at.Prelude.Dict.{Dict, get-set}
use ma_at.SolverKeys.{
  SolverPrivateKeyEnvEntry, Resolution, resolved, duplicate, account, after_claim, resolve_from,
  resolve_solver_accounts, Env, ResolvedSolverAccount, collect_solver_private_key_env_entries,
  loaded, loaded_from, load_solver_accounts,
}

module _ (address_of : Text → Text) where
  abbrev lower : SolverPrivateKeyEnvEntry → Text
  lower e = addr_key (address_of e.private_key)

  -- None of the entries has the address.
  abbrev pub Alone : Text → List SolverPrivateKeyEnvEntry → Type 0
  Alone k [] = Unit
  Alone k (e ∷ es) = (addr_key (address_of e.private_key) ≢ k) × Alone k es

  -- No two entries have one address, compared without case.
  abbrev pub AllApart : List SolverPrivateKeyEnvEntry → Type 0
  AllApart [] = Unit
  AllApart (e ∷ es) = Alone (addr_key (address_of e.private_key)) es × AllApart es

  -- No address of the entries is claimed.
  abbrev AllNew : Dict Text → List SolverPrivateKeyEnvEntry → Type 0
  AllNew seen_by [] = Unit
  AllNew seen_by (e ∷ es) = (Dict.get (lower e) seen_by ≡ none) × AllNew seen_by es

  AllNew-set :
      (k name : Text) (seen_by : Dict Text) (es : List SolverPrivateKeyEnvEntry)
      → AllNew (Dict.set k name seen_by) es ↔ (Alone k es × AllNew seen_by es)
  AllNew-set k name seen_by [] = ground arith
  AllNew-set k name seen_by (e ∷ es) = ground (
    arith,
    text_eq_iff k (lower e),
    get-set k (lower e) name seen_by,
    AllNew-set k name seen_by es,
  )

  AllNew-nil : (es : List SolverPrivateKeyEnvEntry) → AllNew [] es
  unfolding Dict.get
  AllNew-nil [] = tt
  AllNew-nil (e ∷ es) = (refl, AllNew-nil es)

  resolve_from_iff :
      (seen_by : Dict Text) (es : List SolverPrivateKeyEnvEntry)
      → (resolve_from address_of seen_by es ≡ resolved (map (account address_of) es))
        ↔ (AllApart es × AllNew seen_by es)
  unfolding resolve_from
  resolve_from_iff seen_by [] = (λ e. (tt, tt), λ h. refl)
  resolve_from_iff seen_by (e ∷ es) =
      go (Dict.get (lower e) seen_by) refl
        (resolve_from address_of (Dict.set (lower e) e.env_var_name seen_by) es)
        (resolve_from_iff (Dict.set (lower e) e.env_var_name seen_by) es)
    where
      claims :
          AllNew (Dict.set (lower e) e.env_var_name seen_by) es
          ↔ (Alone (lower e) es × AllNew seen_by es)
      claims = AllNew-set (lower e) e.env_var_name seen_by es

      go :
          (o : Option Text)
          → Dict.get (lower e) seen_by ≡ o
          → (r : Resolution)
          → (r ≡ resolved (map (account address_of) es))
            ↔ (AllApart es × AllNew (Dict.set (lower e) e.env_var_name seen_by) es)
          → (after_claim address_of e o r
              ≡ resolved (account address_of e ∷ map (account address_of) es))
            ↔ (AllApart (e ∷ es) × AllNew seen_by (e ∷ es))
      go (some name) q r ih = (λ d. cc d, λ h. cc (q, h.1.0))
      go none q (duplicate reason) ih = (λ d. cc d, λ h. cc (ih.1 (h.0.1, claims.1 (h.0.0, h.1.1))))
      go none q (resolved out) ih = (
        λ d. let h = ih.0 (cc d) in let fresh = claims.0 h.1 in ((fresh.0, h.0), (q, fresh.1)),
        λ h. let d = ih.1 (h.0.1, claims.1 (h.0.0, h.1.1)) in cc d,
      )

  -- The keys of the environment are accepted exactly if no two of them have one address, compared without
  -- case, and then the accounts are those of the keys, in order.
  pub resolve_solver_accounts_iff :
      (es : List SolverPrivateKeyEnvEntry)
      → (resolve_solver_accounts address_of es ≡ resolved (map (account address_of) es))
        ↔ AllApart es
  unfolding resolve_solver_accounts
  resolve_solver_accounts_iff es = ground (arith, resolve_from_iff [] es, AllNew-nil es)

  -- What is accepted has all the accounts.
  resolve_from-accounts :
      (seen_by : Dict Text) (es : List SolverPrivateKeyEnvEntry) (out : List ResolvedSolverAccount)
      → resolve_from address_of seen_by es ≡ resolved out
      → out ≡ map (account address_of) es
  unfolding resolve_from
  resolve_from-accounts seen_by [] out e = cc e
  resolve_from-accounts seen_by (x ∷ es) out e =
      go (Dict.get (lower x) seen_by)
        (resolve_from address_of (Dict.set (lower x) x.env_var_name seen_by) es)
        (resolve_from-accounts (Dict.set (lower x) x.env_var_name seen_by) es) e
    where
      go :
          (o : Option Text) (r : Resolution)
          → ((later : List ResolvedSolverAccount)
              → r ≡ resolved later
              → later ≡ map (account address_of) es)
          → after_claim address_of x o r ≡ resolved out
          → out ≡ account address_of x ∷ map (account address_of) es
      go (some name) r k d = cc d
      go none (duplicate reason) k d = cc d
      go none (resolved later) k d = cc (d, k later refl)

  -- With these keys in the environment, of which there is one at least, the process starts with their
  -- accounts, in order, exactly if no two of them have one address, compared without case.
  pub load_solver_accounts_iff :
      (env : Env) (e : SolverPrivateKeyEnvEntry) (es : List SolverPrivateKeyEnvEntry)
      → collect_solver_private_key_env_entries env ≡ some (e ∷ es)
      → (load_solver_accounts address_of env
          ≡ loaded (account address_of e) (map (account address_of) es))
        ↔ AllApart (e ∷ es)
  unfolding load_solver_accounts resolve_solver_accounts
  load_solver_accounts_iff env e es found = rw found (
      go (resolve_from address_of [] (e ∷ es)) (resolve_from-accounts [] (e ∷ es))
        (resolve_solver_accounts_iff (e ∷ es)))
    where
      go :
          (r : Resolution)
          → ((out : List ResolvedSolverAccount)
              → r ≡ resolved out
              → out ≡ map (account address_of) (e ∷ es))
          → (r ≡ resolved (map (account address_of) (e ∷ es))) ↔ AllApart (e ∷ es)
          → (loaded_from address_of (e ∷ es) r
              ≡ loaded (account address_of e) (map (account address_of) es))
            ↔ AllApart (e ∷ es)
      go (duplicate reason) all h = (λ d. cc d, λ apart. absurd (cc (h.1 apart)))
      go (resolved out) all h = (λ d. h.0 (ap resolved (all out refl)), λ apart. refl)
