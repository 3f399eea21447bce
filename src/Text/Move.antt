-- ===== src/Text/Move.antt =====
-- string.c: copies, which may overlap in `memmove`.
use group.Base.{
  ℕ, zero, suc, ◌+◌, ◌-◌, ◌%◌, ◌≤◌, ◌<◌, ◌≡◌, ◌≢◌, refl, ap, ◌∙◌, Bool, true, false, ◌&&◌, ◌==◌,
  leb, ltb, if◌then◌else◌, update, arith, ==_ne, Bool-cases, inl, inr, Yields, ◌⊎◌,
}
use group.Text.{Memory, copy_up, copy_down, memcpy, memmove, memset, set_bytes}

abbrev pub in_block : ℕ → ℕ → ℕ → Bool
in_block start size a = leb start a && ltb a (start + size)

-- The block at `dst` holds what the block at `src` held, and no other byte changed.
abbrev pub Moved : ℕ → ℕ → ℕ → Memory → Memory → Type 0
Moved dst src size m m' =
    (a : ℕ) → m' a ≡ (if in_block dst size a then m (src + (a - dst)) else m a)

-- A byte is read before it is overwritten.
pub copy_up-Moved :
    (size dst src : ℕ) (m : Memory)
    → ((k : ℕ) → 0 < k → k < size → src + k ≢ dst)
    → Moved dst src size m (copy_up size dst src m)
unfolding copy_up
copy_up-Moved zero dst src m clear a = ground arith
copy_up-Moved (suc size) dst src m clear a =
    copy_up-Moved size (dst + 1) (src + 1) (update m dst (m src))
      (λ k p q e. clear k p (omega arith) (omega (arith, e))) a
    ∙ step (Bool-cases (in_block (dst + 1) size a))
  where
    step :
        ((in_block (dst + 1) size a ≡ true) ⊎ (in_block (dst + 1) size a ≡ false))
        → (if in_block (dst + 1) size a
            then update m dst (m src) (src + 1 + (a - (dst + 1)))
            else update m dst (m src) a)
          ≡ (if in_block dst (suc size) a then m (src + (a - dst)) else m a)
    step (inl e) =
        let i : in_block dst (suc size) a ≡ true = ground arith in
        let k : src + 1 + (a - (dst + 1)) ≡ src + (a - dst) = ground arith in
        let n : src + (a - dst) ≢ dst = clear (a - dst) (ground arith) (ground arith) in
        rw (e, i, k, ==_ne (src + (a - dst)) dst n) refl
    step (inr e) = rw e (elim (Bool-cases (a == dst)) [
      | inl q ↦
          let i : in_block dst (suc size) a ≡ true = ground arith in
          let k : src ≡ src + (a - dst) = ground arith in rw (q, i) (ap m k)
      | inr q ↦ let i : in_block dst (suc size) a ≡ false = ground arith in rw (q, i) refl
    ])

pub copy_down-Moved :
    (size dst src : ℕ) (m : Memory)
    → src ≤ dst
    → Moved dst src size m (copy_down size (dst + size) (src + size) m)
unfolding copy_down
copy_down-Moved zero dst src m h a = ground arith
copy_down-Moved (suc size) dst src m h a =
    let d : dst + suc size - 1 ≡ dst + size = omega arith in
    let s : src + suc size - 1 ≡ src + size = omega arith in
    rw (d, s)
      (copy_down-Moved size dst src (update m (dst + size) (m (src + size))) h a
        ∙ step (Bool-cases (in_block dst size a)))
  where
    step :
        ((in_block dst size a ≡ true) ⊎ (in_block dst size a ≡ false))
        → (if in_block dst size a
            then update m (dst + size) (m (src + size)) (src + (a - dst))
            else update m (dst + size) (m (src + size)) a)
          ≡ (if in_block dst (suc size) a then m (src + (a - dst)) else m a)
    step (inl e) =
        let i : in_block dst (suc size) a ≡ true = ground arith in
        let n : (src + (a - dst) == dst + size) ≡ false = ground arith in rw (e, i, n) refl
    step (inr e) = rw e (elim (Bool-cases (a == dst + size)) [
      | inl q ↦
          let i : in_block dst (suc size) a ≡ true = ground arith in
          let k : src + size ≡ src + (a - dst) = ground arith in rw (q, i) (ap m k)
      | inr q ↦ let i : in_block dst (suc size) a ≡ false = ground arith in rw (q, i) refl
    ])

module _ (dst src size : ℕ) (m : Memory) (d : dst ≢ 0) (s : src ≢ 0) where
  -- `memmove` between pointers that are not null copies the block however the two blocks overlap, and
  -- changes no other byte. It returns `dst`, or the end of the block when `dst` lies below `src`.
  pub memmove-Moved :
      Yields
        (memmove dst src size m)
        (λ r. (r.0 ≡ (if ltb dst src then dst + size else dst)) × Moved dst src size m r.1)
  unfolding memmove
  memmove-Moved =
      rw (==_ne dst 0 d, ==_ne src 0 s)
        (elim (Bool-cases (ltb dst src)) [
          | inl e ↦ rw e (refl, copy_up-Moved size dst src m (λ k p q c. ground arith))
          | inr e ↦ rw e (refl, copy_down-Moved size dst src m (ground arith))
        ])

  -- `memcpy` between pointers that are not null copies the block when the two blocks are apart, changes
  -- no other byte, and returns `dst`.
  pub memcpy-Moved :
      ((k : ℕ) → k < size → in_block dst size (src + k) ≡ false)
      → Yields (memcpy dst src size m) (λ r. (r.0 ≡ dst) × Moved dst src size m r.1)
  unfolding memcpy
  memcpy-Moved apart =
      rw (==_ne dst 0 d, ==_ne src 0 s)
        (refl, copy_up-Moved size dst src m (λ k p q c. ground (arith, apart k q)))

set_bytes-set :
    (size dst value : ℕ) (m : Memory) (a : ℕ)
    → set_bytes size dst value m a ≡ (if in_block dst size a then value else m a)
unfolding set_bytes
set_bytes-set zero dst value m a = ground arith
set_bytes-set (suc size) dst value m a =
    ground (arith, set_bytes-set size (dst + 1) value (update m dst value) a)

-- `memset` through a pointer that is not null fills the block with the value as a byte, changes no other
-- byte, and returns `dst`.
pub memset-set_bytes :
    (dst value size : ℕ) (m : Memory)
    → dst ≢ 0
    → Yields
        (memset dst value size m)
        (λ r. (r.0 ≡ dst) × ((a : ℕ) → r.1 a ≡ (if in_block dst size a then value % 256 else m a)))
unfolding memset
memset-set_bytes dst value size m d =
    rw (==_ne dst 0 d) (refl, set_bytes-set size dst (value % 256) m)
