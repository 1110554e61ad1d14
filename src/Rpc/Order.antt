-- ===== src/Rpc/Order.antt =====
-- Which URLs rotationOrder of orchestrator/src/rpc_rotation.ts tries, and which first.
use ma_at.Prelude.{
  ℕ, ◌≤◌, ◌<◌, ◌≡◌, refl, ap, ◌⊎◌, ◌↔◌, inl, inr, Bool, true, false, List, [], ◌∷◌, ltb, leb,
  if◌then◌else◌, keep_if, length, is_empty, All, All-keep_if, Any, Any-map, Any-elim, keep_if-Any,
  Any-keep_if, keep_if-empty, Text, arith, Bool-cases, ltb→lt, leb→le, subst,
}
use ma_at.Rpc.Spin.{Tries, spin-lt, spin-Tries}
use ma_at.Rpc.{Health, spin, insert_by, sort_by, rotation_order, or_sorted, cooled_at}

module _ (key : ℕ → ℕ) where
  insert_by-Any :
      (P : ℕ → Type 0) (a : ℕ) (bs : List ℕ) → P a ⊎ Any P bs → Any P (insert_by key a bs)
  unfolding insert_by
  insert_by-Any P a [] h = h
  insert_by-Any P a (b ∷ bs) h = go (insert_by-Any P a bs) (ltb (key b) (key a)) h
    where
      go :
          (P a ⊎ Any P bs → Any P (insert_by key a bs))
          → (t : Bool) → P a ⊎ (P b ⊎ Any P bs)
          → Any P (if t then b ∷ insert_by key a bs else a ∷ b ∷ bs)
      go rest true (inl p) = inr (rest (inl p))
      go rest true (inr (inl p)) = inl p
      go rest true (inr (inr p)) = inr (rest (inr p))
      go rest false p = p

  Any-insert_by :
      (P : ℕ → Type 0) (a : ℕ) (bs : List ℕ) → Any P (insert_by key a bs) → P a ⊎ Any P bs
  unfolding insert_by
  Any-insert_by P a [] h = h
  Any-insert_by P a (b ∷ bs) h = go (Any-insert_by P a bs) (ltb (key b) (key a)) h
    where
      go :
          (Any P (insert_by key a bs) → P a ⊎ Any P bs)
          → (t : Bool) → Any P (if t then b ∷ insert_by key a bs else a ∷ b ∷ bs)
          → P a ⊎ (P b ⊎ Any P bs)
      go rest true (inl p) = inr (inl p)
      go rest true (inr p) = elim (rest p) [ inl q ↦ inl q | inr q ↦ inr (inr q) ]
      go rest false p = p

  sort_by-Any : (P : ℕ → Type 0) (xs : List ℕ) → Any P xs → Any P (sort_by key xs)
  unfolding sort_by
  sort_by-Any P [] h = h
  sort_by-Any P (a ∷ rest) (inl p) = insert_by-Any P a _ (inl p)
  sort_by-Any P (a ∷ rest) (inr p) = insert_by-Any P a _ (inr (sort_by-Any P rest p))

  Any-sort_by : (P : ℕ → Type 0) (xs : List ℕ) → Any P (sort_by key xs) → Any P xs
  unfolding sort_by
  Any-sort_by P [] h = h
  Any-sort_by P (a ∷ rest) h = elim (Any-insert_by P a _ h) [
    | inl p ↦ inl p
    | inr p ↦ inr (Any-sort_by P rest p)
  ]

  -- The head has the least key of a sorted list.
  abbrev Leads : List ℕ → Type 0
  Leads [] = Unit
  Leads (a ∷ rest) = (j : ℕ) → Tries j (a ∷ rest) → key a ≤ key j

  insert_by-Leads : (a : ℕ) (bs : List ℕ) → Leads bs → Leads (insert_by key a bs)
  unfolding insert_by
  insert_by-Leads a [] h = λ j t. elim t [ inl e ↦ omega (arith, ap key e) | inr q ↦ elim q [ ] ]
  insert_by-Leads a (b ∷ bs) h = go (ltb (key b) (key a)) refl
    where
      under_b :
          (ltb (key b) (key a) ≡ true) → (j : ℕ) → Tries j (b ∷ insert_by key a bs) → key b ≤ key j
      under_b e j (inl q) = omega (arith, ap key q)
      under_b e j (inr q) = elim (Any-insert_by (λ i. i ≡ j) a bs q) [
        | inl q' ↦ omega (arith, ltb→lt (key b) (key a) e, ap key q')
        | inr q' ↦ h j (inr q')
      ]

      under_a : (ltb (key b) (key a) ≡ false) → (j : ℕ) → Tries j (a ∷ b ∷ bs) → key a ≤ key j
      under_a e j (inl q) = omega (arith, ap key q)
      under_a e j (inr q) = ground (arith, e, h j q)

      go :
          (t : Bool)
          → ltb (key b) (key a) ≡ t
          → Leads (if t then b ∷ insert_by key a bs else a ∷ b ∷ bs)
      go true e = under_b e
      go false e = under_a e

  sort_by-Leads : (xs : List ℕ) → Leads (sort_by key xs)
  unfolding sort_by
  sort_by-Leads [] = tt
  sort_by-Leads (a ∷ rest) = insert_by-Leads a (sort_by key rest) (sort_by-Leads rest)

  -- What a test picks from an order, or all of it, sorted, if it picks nothing.
  abbrev AllCool : ℕ → ℕ → Type 0
  AllCool n now = (i : ℕ) → i < n → now < key i

  none_free :
      (n now : ℕ) (xs : List ℕ)
      → AllCool n now
      → All (λ i. i < n) xs
      → is_empty (keep_if (λ i. leb (key i) now) xs) ≡ true
  unfolding keep_if
  none_free n now [] c h = refl
  none_free n now (x ∷ xs) c h = ground (arith, c x h.0, none_free n now xs c h.1)

  All-Tries : (P : ℕ → Type 0) (j : ℕ) (xs : List ℕ) → All P xs → Tries j xs → P j
  All-Tries P j [] h t = elim t [ ]
  All-Tries P j (x ∷ xs) h (inl e) = subst P e h.0
  All-Tries P j (x ∷ xs) h (inr t) = All-Tries P j xs h.1 t

  Tries-nonempty : (j : ℕ) (xs : List ℕ) → Tries j xs → is_empty xs ≡ false
  Tries-nonempty j [] t = elim t [ ]
  Tries-nonempty j (x ∷ xs) t = refl

  picked_iff :
      (n now : ℕ) (order : List ℕ) (j : ℕ)
      → All (λ i. i < n) order
      → ((i : ℕ) → i < n → Tries i order)
      → j < n
      → Tries j (or_sorted key order (keep_if (λ i. leb (key i) now) order))
        ↔ ((key j ≤ now) ⊎ AllCool n now)
  picked_iff n now order j below all lt = (to, from)
    where
      free : List ℕ
      free = keep_if (λ i. leb (key i) now) order

      to : Tries j (or_sorted key order free) → (key j ≤ now) ⊎ AllCool n now
      to t = elim (Bool-cases (is_empty free)) [
        | inl e ↦ inr λ i h. ground (
          arith,
          All-Tries (λ x. leb (key x) now ≡ false) i order
              (keep_if-empty (λ x. leb (key x) now) order e) (all i h),
        )
        | inr e ↦ inl (
            Any-elim (λ i. (i ≡ j) × (leb (key i) now ≡ true)) (key j ≤ now) order
              (λ i p. subst (λ x. key x ≤ now) p.0 (leb→le (key i) now p.1))
              (keep_if-Any (λ i. i ≡ j) (λ i. leb (key i) now) order
                (subst (λ b. Tries j (if b then sort_by key order else free)) e t)))
      ]

      passes : key j ≤ now → Tries j free
      passes f =
          Any-keep_if (λ i. i ≡ j) (λ i. leb (key i) now) order
            (Any-map (λ i. i ≡ j) (λ i. (i ≡ j) × (leb (key i) now ≡ true)) order
              (λ i e. (e, ground (arith, ap key e, f))) (all j lt))

      from : (key j ≤ now) ⊎ AllCool n now → Tries j (or_sorted key order free)
      from (inl f) = rw (Tries-nonempty j free (passes f)) (passes f)
      from (inr c) = rw (none_free n now order c below) (sort_by-Any (λ i. i ≡ j) order (all j lt))

  -- The first of an order is free, or has the least key of all.
  abbrev pub BestFirst : ℕ → ℕ → List ℕ → Type 0
  BestFirst n now [] = ⊥
  BestFirst n now (i ∷ rest) = (i < n) × ((key i ≤ now) ⊎ ((j : ℕ) → j < n → key i ≤ key j))

  sorted_best :
      (n now : ℕ) (xs : List ℕ)
      → 0 < n
      → Leads xs
      → ((i : ℕ) → i < n → Tries i xs)
      → ((i : ℕ) → Tries i xs → i < n)
      → BestFirst n now xs
  sorted_best n now [] pos l all below = all 0 pos
  sorted_best n now (x ∷ xs) pos l all below = (below x (inl refl), inr λ j h. l j (all j h))

  picked_best :
      (n now : ℕ) (order : List ℕ)
      → 0 < n
      → All (λ i. i < n) order
      → ((i : ℕ) → i < n → Tries i order)
      → BestFirst n now (or_sorted key order (keep_if (λ i. leb (key i) now) order))
  picked_best n now order pos below all =
      go (keep_if free order) (All-keep_if free order) picked_below
    where
      free : ℕ → Bool
      free i = leb (key i) now

      picked_below : (i : ℕ) → Tries i (keep_if free order) → i < n
      picked_below i t =
          All-Tries (λ x. x < n) i order below
            (Any-map (λ x. (x ≡ i) × (free x ≡ true)) (λ x. x ≡ i) order (λ x p. p.0)
              (keep_if-Any (λ x. x ≡ i) free order t))

      go :
          (xs : List ℕ)
          → All (λ i. free i ≡ true) xs
          → ((i : ℕ) → Tries i xs → i < n)
          → BestFirst n now (if is_empty xs then sort_by key order else xs)
      go [] f b =
          sorted_best n now (sort_by key order) pos (sort_by-Leads order)
            (λ i h. sort_by-Any (λ x. x ≡ i) order (all i h))
            (λ i t. All-Tries (λ x. x < n) i order below (Any-sort_by (λ x. x ≡ i) order t))
      go (x ∷ xs) f b = (b x (inl refl), inl (leb→le (key x) now f.0))

-- A URL is tried exactly if it does not cool down any more, or all URLs still do.
pub rotation_order_iff :
    (urls : List Text) (start now : ℕ) (h : Health) (j : ℕ)
    → j < length urls
    → Tries j (rotation_order urls start now h)
      ↔ ((cooled_at urls h j ≤ now) ⊎ ((i : ℕ) → i < length urls → now < cooled_at urls h i))
unfolding rotation_order
rotation_order_iff urls start now h j lt =
    picked_iff (cooled_at urls h) (length urls) now (spin (length urls) start (length urls) 0) j
      (spin-lt (length urls) start (length urls) 0 (omega (arith, lt)))
      (λ i l. spin-Tries (length urls) start i l) lt

-- With a URL at least, the order is not empty, and its first URL does not cool down any more, or is
-- one of those whose cooldown ends first.
pub rotation_order-BestFirst :
    (urls : List Text) (start now : ℕ) (h : Health)
    → 0 < length urls
    → BestFirst (cooled_at urls h) (length urls) now (rotation_order urls start now h)
unfolding rotation_order
rotation_order-BestFirst urls start now h pos =
    picked_best (cooled_at urls h) (length urls) now (spin (length urls) start (length urls) 0) pos
      (spin-lt (length urls) start (length urls) 0 pos) (λ i l. spin-Tries (length urls) start i l)
