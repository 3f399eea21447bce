-- ===== src/Text/Search.antt =====
-- string.c: the first byte that differs, and the first that is looked for.
use group.Base.{
  ℕ, zero, suc, ◌+◌, ◌%◌, ◌≤◌, ◌<◌, ◌≡◌, ◌≢◌, ap, ◌∙◌, Option, none, some, ◌==◌, ltb, arith, ==_ne,
  Bool-cases, inl, inr, Yields, eq_of_==, ne_of_==,
}
use group.Text.{Memory, Sign, minus, null, plus, compare_loop, memcmp, memchr_loop, memchr}

-- The sign of the first difference.
unfoldable pub Ordered : ℕ → ℕ → Sign → Type 0
Ordered x y minus = x < y
Ordered x y null = ⊥
Ordered x y plus = y < x

pub data Compared (m : Memory) (a b size : ℕ) : Sign → Type 0 where
  equal : ((j : ℕ) → j < size → m (a + j) ≡ m (b + j)) → Compared m a b size null
  differ :
      (k : ℕ) {s : Sign}
      → k < size
      → ((j : ℕ) → j < k → m (a + j) ≡ m (b + j))
      → Ordered (m (a + k)) (m (b + k)) s
      → Compared m a b size s

Ordered-at :
    (m : Memory) (s : Sign) {x x' y y' : ℕ}
    → x ≡ x'
    → y ≡ y'
    → Ordered (m x) (m y) s
    → Ordered (m x') (m y') s
unfolding Ordered
Ordered-at m minus e f o = omega (arith, o, ap m e, ap m f)
Ordered-at m null e f o = o
Ordered-at m plus e f o = omega (arith, o, ap m e, ap m f)

-- Agreement on a byte and on the rest.
shift :
    (m : Memory) (a b k : ℕ)
    → m a ≡ m b
    → ((j : ℕ) → j < k → m (a + 1 + j) ≡ m (b + 1 + j))
    → (j : ℕ) → j < suc k
    → m (a + j) ≡ m (b + j)
shift m a b k first h zero q =
    let e : a + 0 ≡ a = omega arith in let f : b ≡ b + 0 = omega arith in ap m e ∙ first ∙ ap m f
shift m a b k first h (suc j) q =
    let e : a + suc j ≡ a + 1 + j = omega arith in
    let f : b + 1 + j ≡ b + suc j = omega arith in ap m e ∙ h j (omega arith) ∙ ap m f

compare_loop-Compared : (size a b : ℕ) (m : Memory) → Compared m a b size (compare_loop size a b m)
unfolding compare_loop Ordered
compare_loop-Compared zero a b m = equal (λ j h. absurd (omega arith))
compare_loop-Compared (suc size) a b m = elim (Bool-cases (m a == m b)) [
  | inl e ↦ rw e (later (eq_of_== (m a) (m b) e) (compare_loop-Compared size (a + 1) (b + 1) m))
  | inr e ↦ rw e (elim (Bool-cases (ltb (m b) (m a))) [
    | inl g ↦ rw g (here (let p : m b < m a = ground arith in p))
    | inr g ↦ rw g (here (let p : m a < m b = ground arith in p))
  ])
]
  where
    here : {s : Sign} → Ordered (m a) (m b) s → Compared m a b (suc size) s
    here {s} o =
        let e : a ≡ a + 0 = omega arith in
        let f : b ≡ b + 0 = omega arith in
        differ 0 (omega arith) (λ j h. absurd (omega arith)) (Ordered-at m s e f o)

    later : m a ≡ m b → {s : Sign} → Compared m (a + 1) (b + 1) size s → Compared m a b (suc size) s
    later first (equal h) = equal (shift m a b size first h)
    later first (differ k {s} lt h o) =
        let e : a + 1 + k ≡ a + suc k = omega arith in
        let f : b + 1 + k ≡ b + suc k = omega arith in
        differ (suc k) (omega arith) (shift m a b k first h) (Ordered-at m s e f o)

-- `memcmp` of blocks whose pointers are not null: zero when the blocks are equal, and else the sign of
-- the first difference, the bytes unsigned.
pub memcmp-Compared :
    (a b size : ℕ) (m : Memory) → a ≢ 0 → b ≢ 0 → Yields (memcmp a b size m) (Compared m a b size)
unfolding memcmp
memcmp-Compared a b size m p q = rw (==_ne a 0 p, ==_ne b 0 q) (compare_loop-Compared size a b m)

-- The first byte of a block that is `ch`.
pub data FirstAt (m : Memory) (block size ch : ℕ) : Option ℕ → Type 0 where
  found :
      {p : ℕ}
      → block ≤ p
      → p < block + size
      → m p ≡ ch
      → ((j : ℕ) → block ≤ j → j < p → m j ≢ ch)
      → FirstAt m block size ch (some p)
  absent : ((j : ℕ) → block ≤ j → j < block + size → m j ≢ ch) → FirstAt m block size ch none

-- A byte that does not match in front of a block.
pub FirstAt-cons :
    (m : Memory) (block size ch : ℕ) {o : Option ℕ}
    → m block ≢ ch
    → FirstAt m (block + 1) size ch o
    → FirstAt m block (suc size) ch o
FirstAt-cons m block size ch n f = later f
  where
    skip : (j : ℕ) → block ≤ j → (block + 1 ≤ j → m j ≢ ch) → m j ≢ ch
    skip j p h = elim (Bool-cases (j == block)) [
      | inl e ↦ rw (eq_of_== j block e) n
      | inr e ↦ h (ground arith)
    ]

    later : {o : Option ℕ} → FirstAt m (block + 1) size ch o → FirstAt m block (suc size) ch o
    later (found p q e h) = found (omega arith) (omega arith) e (λ j i l. skip j i (λ r. h j r l))
    later (absent h) = absent (λ j i l. skip j i (λ r. h j r (omega arith)))

memchr_loop-FirstAt :
    (size block ch : ℕ) (m : Memory) → FirstAt m block size ch (memchr_loop size block ch m)
unfolding memchr_loop
memchr_loop-FirstAt zero block ch m = absent (λ j p q. absurd (omega arith))
memchr_loop-FirstAt (suc size) block ch m = elim (Bool-cases (m block == ch)) [
  | inl e ↦
      rw e (
        found (omega arith) (omega arith) (eq_of_== (m block) ch e) (λ j p q. absurd (omega arith)))
  | inr e ↦ rw e (
      FirstAt-cons m block size ch (ne_of_== (m block) ch e)
        (memchr_loop-FirstAt size (block + 1) ch m))
]

-- `memchr` in a block whose pointer is not null: the first byte equal to the character as a byte, or
-- NULL when there is none.
pub memchr-FirstAt :
    (block ch size : ℕ) (m : Memory)
    → block ≢ 0
    → Yields (memchr block ch size m) (FirstAt m block size (ch % 256))
unfolding memchr
memchr-FirstAt block ch size m p =
    rw (==_ne block 0 p) (memchr_loop-FirstAt size block (ch % 256) m)
