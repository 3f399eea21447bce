-- ===== src/Cache/Find.antt =====
-- block.c: the search of the slots, and the entry that it finds.
use group.Base.{
  ℕ, zero, suc, ◌+◌, ◌≤◌, ◌<◌, ◌≡◌, ◌≢◌, refl, sym, ap, ◌∙◌, ne_of_==, Bool, true, false, Option,
  none, some, arith, ◌==◌, if◌then◌else◌, update, Bool-cases, inl, inr, eq_of_==, ==_ne, ==_self,
}
use group.Cache.{Entry, cache_size, caches, find_loop}

abbrev pub Slots : Type 0
Slots = ℕ → Option Entry

-- The first entry for `s` among the `left` slots from `i`.
pub entry_of : ℕ → ℕ → Slots → ℕ → Option Entry
entry_of zero i slots s = none
entry_of (suc left) i slots s =
    if caches s (slots i) then slots i else entry_of left (i + 1) slots s

-- No two of the 64 slots cache one sector.
abbrev pub IsUnique : Slots → Type 0
IsUnique slots =
    (s i j : ℕ)
    → i < cache_size
    → j < cache_size
    → caches s (slots i) ≡ true
    → caches s (slots j) ≡ true
    → i ≡ j

-- No slot caches `s`, but for slot `i` perhaps.
abbrev pub IsFreeBut : ℕ → Slots → ℕ → Type 0
IsFreeBut i slots s = (k : ℕ) → k < cache_size → k ≢ i → caches s (slots k) ≡ false

module _ (slots : Slots) (s : ℕ) where
  pub find-some :
      (left i j : ℕ)
      → find_loop left i slots s ≡ some j
      → (i ≤ j) × (j < i + left) × (caches s (slots j) ≡ true)
  unfolding find_loop
  find-some zero i j h = cc
  find-some (suc left) i j h = elim (Bool-cases (caches s (slots i))) [
    | inl e ↦ ground arith
    | inr e ↦ let (a, b, c) = find-some left (i + 1) j (rw e at h) in (omega arith, omega arith, c)
  ]

  pub find-none :
      (left i j : ℕ)
      → find_loop left i slots s ≡ none
      → i ≤ j
      → j < i + left
      → caches s (slots j) ≡ false
  unfolding find_loop
  find-none zero i j h p q = absurd (omega arith)
  find-none (suc left) i j h p q = elim (Bool-cases (j == i)) [
    | inl e ↦ rw (eq_of_== j i e) (ground arith)
    | inr e ↦ find-none left (i + 1) j (ground arith) (ground arith) (omega arith)
  ]

  pub find-none_of_absent :
      (left i : ℕ)
      → ((k : ℕ) → i ≤ k → k < i + left → caches s (slots k) ≡ false)
      → find_loop left i slots s ≡ none
  unfolding find_loop
  find-none_of_absent zero i h = refl
  find-none_of_absent (suc left) i h =
      rw (h i (omega arith) (omega arith))
        (find-none_of_absent left (i + 1) λ k p q. h k (omega arith) (omega arith))

  pub entry_of-find_some :
      (left i j : ℕ) → find_loop left i slots s ≡ some j → entry_of left i slots s ≡ slots j
  unfolding find_loop entry_of
  entry_of-find_some zero i j h = cc
  entry_of-find_some (suc left) i j h = ground (arith, entry_of-find_some left (i + 1) j)

  pub entry_of-find_none :
      (left i : ℕ) → find_loop left i slots s ≡ none → entry_of left i slots s ≡ none
  unfolding find_loop entry_of
  entry_of-find_none zero i h = refl
  entry_of-find_none (suc left) i h = ground (arith, entry_of-find_none left (i + 1))

  pub entry_of-absent :
      (left i : ℕ)
      → ((k : ℕ) → i ≤ k → k < i + left → caches s (slots k) ≡ false)
      → entry_of left i slots s ≡ none
  unfolding entry_of
  entry_of-absent zero i h = refl
  entry_of-absent (suc left) i h =
      rw (h i (omega arith) (omega arith))
        (entry_of-absent left (i + 1) λ k p q. h k (omega arith) (omega arith))

  pub entry_of-hit :
      (left i j : ℕ)
      → i ≤ j
      → j < i + left
      → caches s (slots j) ≡ true
      → ((k : ℕ) → i ≤ k → k < i + left → caches s (slots k) ≡ true → k ≡ j)
      → entry_of left i slots s ≡ slots j
  unfolding entry_of
  entry_of-hit zero i j p q e only = absurd (omega arith)
  entry_of-hit (suc left) i j p q e only = elim (Bool-cases (caches s (slots i))) [
    | inl t ↦ rw t (ap slots (only i (omega arith) (omega arith) t))
    | inr f ↦ rw f (
        entry_of-hit left (i + 1) j (ahead f) (omega arith) e
          λ k a b. only k (omega arith) (omega arith))
  ]
    where
      ahead : caches s (slots i) ≡ false → i + 1 ≤ j
      ahead f = elim (Bool-cases (j == i)) [
        | inl t ↦ absurd (clash (rw (eq_of_== j i t) at e) f)
        | inr t ↦ ground arith
      ]
        where
          clash : caches s (slots i) ≡ true → caches s (slots i) ≡ false → ⊥
          clash a b = cc

  -- A write to a slot that does not concern `s` before or after.
  pub entry_of-update :
      (left i at : ℕ) (x : Option Entry)
      → caches s x ≡ false
      → caches s (slots at) ≡ false
      → entry_of left i (update slots at x) s ≡ entry_of left i slots s
  unfolding entry_of
  entry_of-update zero i at x new old = refl
  entry_of-update (suc left) i at x new old = elim (Bool-cases (i == at)) [
    | inl e ↦ rw (e, new, eq_of_== i at e, old) (entry_of-update left (at + 1) at x new old)
    | inr e ↦ rw e (
        ap (λ r. if caches s (slots i) then slots i else r)
          (entry_of-update left (i + 1) at x new old))
  ]

module _ (slots : Slots) (at : ℕ) (x : Option Entry) where
  pub caches-update_self : (s : ℕ) → caches s (update slots at x at) ≡ caches s x
  caches-update_self s = rw (==_self at)

  pub caches-update_ne : (s k : ℕ) → k ≢ at → caches s (update slots at x k) ≡ caches s (slots k)
  caches-update_ne s k ne = rw (==_ne k at ne)

  -- Uniqueness survives a write for whose sector no other slot stands.
  pub IsUnique-update :
      IsUnique slots
      → ((s : ℕ) → caches s x ≡ true → IsFreeBut at slots s)
      → IsUnique (update slots at x)
  IsUnique-update one alone s i j p q hi hj = elim (Bool-cases (i == at)) [
    | inl ei ↦ elim (Bool-cases (j == at)) [
      | inl ej ↦ eq_of_== i at ei ∙ sym (eq_of_== j at ej)
      | inr ej ↦
          let f = alone s (rw ei at hi) j q (ne_of_== j at ej) in
          let t = rw ej at hj in absurd (clash (caches s (slots j)) t f)
    ]
    | inr ei ↦ elim (Bool-cases (j == at)) [
      | inl ej ↦
          let f = alone s (rw ej at hj) i p (ne_of_== i at ei) in
          let t = rw ei at hi in absurd (clash (caches s (slots i)) t f)
      | inr ej ↦ one s i j p q (rw ei at hi) (rw ej at hj)
    ]
  ]
    where
      clash : (b : Bool) → b ≡ true → b ≡ false → ⊥
      clash b t f = cc
