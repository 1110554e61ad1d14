-- ===== src/Routing/Order.antt =====
-- What the sort of orchestrator/src/solver_routing.ts puts first.
use ma_at.Prelude.{
  ◌≤◌, ◌≡◌, refl, ◌⊎◌, inl, inr, Bool, true, false, List, [], ◌∷◌, if◌then◌else◌, keep_if, All,
  All-map, Any, arith,
}
use ma_at.Routing.Candidate.{CandidateEvaluation, eligible}
use ma_at.Routing.Decide.{cmp_candidates, cap_of, is_after, insert, sort}

-- A candidate that is not sorted after another has no greater cap.
after-cap :
    (e f : CandidateEvaluation)
    → (is_after (cmp_candidates e f) ≡ true → cap_of f ≤ cap_of e)
      × (is_after (cmp_candidates e f) ≡ false → cap_of e ≤ cap_of f)
unfolding cmp_candidates
after-cap e f = ground arith

-- A property of all is one of all in their order.
insert-All {κ} :
    (P : CandidateEvaluation → Type κ) (e : CandidateEvaluation) (es : List CandidateEvaluation)
    → P e
    → All P es
    → All P (insert e es)
unfolding insert
insert-All P e [] p h = (p, tt)
insert-All P e (f ∷ fs) p h = go (insert-All P e fs p h.1) (is_after (cmp_candidates e f))
  where
    go : All P (insert e fs) → (b : Bool) → All P (if b then f ∷ insert e fs else e ∷ f ∷ fs)
    go rest true = (h.0, rest)
    go rest false = (p, h)

-- The head, if there is one, has no greater cap than the rest.
abbrev pub Leads : List CandidateEvaluation → Type 0
Leads [] = Unit
Leads (e ∷ es) = All (λ f. cap_of e ≤ cap_of f) es

insert-Leads :
    (e : CandidateEvaluation) (es : List CandidateEvaluation) → Leads es → Leads (insert e es)
unfolding insert
insert-Leads e [] h = tt
insert-Leads e (f ∷ fs) h = go (is_after (cmp_candidates e f)) refl
  where
    go :
        (b : Bool)
        → is_after (cmp_candidates e f) ≡ b
        → Leads (if b then f ∷ insert e fs else e ∷ f ∷ fs)
    go true q = insert-All (λ g. cap_of f ≤ cap_of g) e fs ((after-cap e f).0 q) h
    go false q = (
      le,
      All-map (λ g. cap_of f ≤ cap_of g) (λ g. cap_of e ≤ cap_of g) fs (λ g l. omega (arith, l, le))
          h,
    )
      where
        le : cap_of e ≤ cap_of f
        le = (after-cap e f).1 q

pub sort-Leads : (es : List CandidateEvaluation) → Leads (sort es)
unfolding sort
sort-Leads [] = tt
sort-Leads (e ∷ es) = insert-Leads e (sort es) (sort-Leads es)

-- What is in a list stays in it where the list is sorted, and nothing else comes in.
insert-Any :
    (P : CandidateEvaluation → Type 0) (e : CandidateEvaluation) (es : List CandidateEvaluation)
    → Any P (insert e es)
    → P e ⊎ Any P es
unfolding insert
insert-Any P e [] a = a
insert-Any P e (f ∷ fs) a = go (insert-Any P e fs) (is_after (cmp_candidates e f)) a
  where
    go :
        (Any P (insert e fs) → P e ⊎ Any P fs)
        → (b : Bool) → Any P (if b then f ∷ insert e fs else e ∷ f ∷ fs)
        → P e ⊎ Any P (f ∷ fs)
    go rest true (inl p) = inr (inl p)
    go rest true (inr r) = elim (rest r) [ inl p ↦ inl p | inr q ↦ inr (inr q) ]
    go rest false b = b

pub sort-Any :
    (P : CandidateEvaluation → Type 0) (es : List CandidateEvaluation) → Any P (sort es) → Any P es
unfolding sort
sort-Any P [] a = a
sort-Any P (e ∷ es) a = elim (insert-Any P e (sort es) a) [
  | inl p ↦ inl p
  | inr q ↦ inr (sort-Any P es q)
]

All-insert {κ} :
    (P : CandidateEvaluation → Type κ) (e : CandidateEvaluation) (es : List CandidateEvaluation)
    → All P (insert e es)
    → P e × All P es
unfolding insert
All-insert P e [] h = h
All-insert P e (f ∷ fs) h = go (All-insert P e fs) (is_after (cmp_candidates e f)) h
  where
    go :
        (All P (insert e fs) → P e × All P fs)
        → (b : Bool) → All P (if b then f ∷ insert e fs else e ∷ f ∷ fs)
        → P e × All P (f ∷ fs)
    go later true (p, rest) = let (q, others) = later rest in (q, (p, others))
    go later false (p, rest) = (p, rest)

pub All-sort {κ} :
    (P : CandidateEvaluation → Type κ) (es : List CandidateEvaluation) → All P (sort es) → All P es
unfolding sort
All-sort P [] h = tt
All-sort P (e ∷ es) h = let (p, rest) = All-insert P e (sort es) h in (p, All-sort P es rest)

-- The survivors' bound on the head, read on all the candidates.
pub Leads-eligible :
    (e : CandidateEvaluation) (es : List CandidateEvaluation)
    → All (λ f. cap_of e ≤ cap_of f) (keep_if eligible es)
    → All (λ f. eligible f ≡ true → cap_of e ≤ cap_of f) es
unfolding keep_if
Leads-eligible e [] h = tt
Leads-eligible e (f ∷ fs) h = go (Leads-eligible e fs) (eligible f) h
  where
    go :
        (All (λ g. cap_of e ≤ cap_of g) (keep_if eligible fs)
          → All (λ g. eligible g ≡ true → cap_of e ≤ cap_of g) fs)
        → (b : Bool)
        → All
            (λ g. cap_of e ≤ cap_of g)
            (if b then f ∷ keep_if eligible fs else keep_if eligible fs)
        → (b ≡ true → cap_of e ≤ cap_of f) × All (λ g. eligible g ≡ true → cap_of e ≤ cap_of g) fs
    go later true (l, rest) = (λ _. l, later rest)
    go later false rest = (λ q. ground arith, later rest)

pub Any-survivor :
    (P : CandidateEvaluation → Type 0) (es : List CandidateEvaluation)
    → Any P (keep_if eligible es)
    → Any (λ e. P e × (eligible e ≡ true)) es
unfolding keep_if
Any-survivor P [] a = elim a [ ]
Any-survivor P (e ∷ es) a = go (Any-survivor P es) (eligible e) refl a
  where
    go :
        (Any P (keep_if eligible es) → Any (λ f. P f × (eligible f ≡ true)) es)
        → (b : Bool) → eligible e ≡ b
        → Any P (if b then e ∷ keep_if eligible es else keep_if eligible es)
        → Any (λ f. P f × (eligible f ≡ true)) (e ∷ es)
    go later true q (inl p) = inl (p, q)
    go later true q (inr r) = inr (later r)
    go later false q r = inr (later r)

-- No survivor: none is eligible.
pub none-eligible :
    (es : List CandidateEvaluation) → keep_if eligible es ≡ [] → All (λ e. eligible e ≡ false) es
unfolding keep_if
none-eligible [] h = tt
none-eligible (e ∷ es) h = go (none-eligible es) (eligible e) h
  where
    go :
        (keep_if eligible es ≡ [] → All (λ f. eligible f ≡ false) es)
        → (b : Bool) → (if b then e ∷ keep_if eligible es else keep_if eligible es) ≡ []
        → (b ≡ false) × All (λ f. eligible f ≡ false) es
    go later true q = ground arith
    go later false q = (refl, later q)

insert-nonempty : (e : CandidateEvaluation) (es : List CandidateEvaluation) → insert e es ≡ [] → ⊥
unfolding insert
insert-nonempty e [] h = ground arith
insert-nonempty e (f ∷ fs) h = ground arith

pub sort-empty : (es : List CandidateEvaluation) → sort es ≡ [] → es ≡ []
unfolding sort
sort-empty [] h = refl
sort-empty (e ∷ es) h = elim (insert-nonempty e (sort es) h) [ ]
