-- ===== src/Directory/Listing.antt =====
-- directory.c: `dir_readdir`, `dir_readdir_2` and `is_empty`.
use group.Base.{
  ℕ, zero, suc, ◌+◌, ◌*◌, ◌≤◌, ◌<◌, ◌≡◌, refl, sym, ap, ◌∙◌, Bool, true, false, not, ◌&&◌, Option,
  none, some, List, [], ◌∷◌, ◌==◌, if◌then◌else◌, ◌>>=◌, length, take, drop, arith, Bool-cases, inl,
  inr, ◌⊎◌, eq_of_==, ne_of_==, Option-cases, Yields, Yields-bind, Yields-mono, length-take,
  length-drop,
}
use group.Inode.{Store}
use group.Directory.{
  DirEntry, entry_size, name_max, max_entries, in_use, name_field, c_string, str_eq, dot_dot,
  is_proper, readdir_loop, dir_readdir, dir_readdir_2, is_empty_loop, is_empty,
}
use group.Directory.Names.{Calls, str_eq-Agrees, Agrees}
use group.Directory.Lookup.{slot, IsDir, read_slot, read_end, whole_slot, fewer_than_max}

-- A name that ends in its field is shorter than the field.
c_string_short : (field s : List ℕ) → c_string field ≡ some s → length s < length field
unfolding c_string
c_string_short [] s h = absurd (ground (arith, h))
c_string_short (c ∷ field) s h = elim (Bool-cases (c == 0)) [
  | inl e ↦ let q = rw e at h in ground (arith, q)
  | inr e ↦ elim (Option-cases (c_string field)) [
    | inl n ↦ let q = rw (e, n) at h in absurd (ground (arith, q))
    | inr (s', n) ↦ let q = rw (e, n) at h in ground (arith, q, c_string_short field s' n)
  ]
]

take_short : (s : List ℕ) (n : ℕ) → length s ≤ n → take n s ≡ s
take_short [] zero h = refl
take_short [] (suc n) h = refl
take_short (c ∷ s) zero h = absurd (omega arith)
take_short (c ∷ s) (suc n) h = ap (λ x. c ∷ x) (take_short s n (omega arith))

-- What a test of an entry tells: `Good` or `Bad`.
abbrev pub Tells : (DirEntry → Type 0) → (DirEntry → Type 0) → DirEntry → Bool → Type 0
Tells Good Bad e true = Good e
Tells Good Bad e false = Bad e

-- The first good slot from `k` on and its name, with the position behind it; or no good slot, with the
-- position at the end.
abbrev pub Listed :
    (DirEntry → Type 0)
    → (DirEntry → Type 0)
    → (ℕ → DirEntry)
    → ℕ
    → ℕ
    → Option (List ℕ) × ℕ
    → Type 0
Listed Good Bad slots cnt k (none, pos) =
    (pos ≡ cnt * entry_size) × ((i : ℕ) → k ≤ i → i < cnt → Bad (slots i))
Listed Good Bad slots cnt k (some name, pos) =
    (j : ℕ) × (k ≤ j)
    × (j < cnt)
    × (pos ≡ (j + 1) * entry_size)
    × Calls (slots j) name
    × Good (slots j)
    × ((i : ℕ) → k ≤ i → i < j → Bad (slots i))

module _ (st : Store) (dir cnt : ℕ) (d : IsDir st dir cnt) (Good Bad : DirEntry → Type 0)
    (wanted : DirEntry → Option Bool)
    (tells : (k : ℕ) → k < cnt → Yields (wanted (slot st dir k)) (Tells Good Bad (slot st dir k)))
    (used : (e : DirEntry) → Good e → in_use e ≡ true) where
  whole_field : (k : ℕ) → length (name_field (slot st dir k)) ≡ 15
  whole_field k =
      let w : length (slot st dir k) ≡ 20 = eq_of_== _ 20 (whole_slot st dir k) in
      length-take 15 (drop 4 (slot st dir k))
        (omega (arith, length-drop 4 (slot st dir k) (omega arith)))

  skip :
      (k : ℕ)
      → Bad (slot st dir k)
      → (r : Option (List ℕ) × ℕ) → Listed Good Bad (slot st dir) cnt (k + 1) r
      → Listed Good Bad (slot st dir) cnt k r
  skip k bad (none, pos) (e, h) = (
    e,
    λ i p q. elim (Bool-cases (i == k)) [
      | inl a ↦ rw (eq_of_== i k a) bad
      | inr a ↦ h i (ground (arith, ne_of_== i k a)) q
    ],
  )
  skip k bad (some name, pos) (j, a, b, c, n, g, h) = (
    j,
    omega arith,
    b,
    c,
    n,
    g,
    λ i p q. elim (Bool-cases (i == k)) [
      | inl s ↦ rw (eq_of_== i k s) bad
      | inr s ↦ h i (ground (arith, ne_of_== i k s)) q
    ],
  )

  readdir_loop-Listed :
      (fuel k : ℕ)
      → k ≤ cnt
      → cnt < fuel + k
      → Yields
          (readdir_loop wanted fuel dir (k * entry_size) st)
          (Listed Good Bad (slot st dir) cnt k)
  unfolding readdir_loop
  readdir_loop-Listed zero k p q = absurd (omega arith)
  readdir_loop-Listed (suc fuel) k p q = elim (Bool-cases (k == cnt)) [
    | inl e ↦
        rw (eq_of_== k cnt e, read_end st dir cnt d.file) (refl, λ i a b. absurd (omega arith))
    | inr e ↦
        let lt : k < cnt = ground (arith, ne_of_== k cnt e) in
        let step : k * 20 + 20 ≡ (k + 1) * 20 = omega arith in
        rw (read_slot st dir cnt d.file k lt, whole_slot st dir k, step)
          (Yields-bind (Tells Good Bad (slot st dir k)) _ (wanted (slot st dir k)) _ (tells k lt)
            (λ b h. branch lt (readdir_loop-Listed fuel (k + 1) (omega arith) (omega arith)) b h))
  ]
    where
      branch :
          k < cnt
          → Yields
              (readdir_loop wanted fuel dir ((k + 1) * 20) st)
              (Listed Good Bad (slot st dir) cnt (k + 1))
          → (b : Bool) → Tells Good Bad (slot st dir k) b
          → Yields
              (if b
                then (c_string (name_field (slot st dir k)) >>= λ name.
                    some (some (take name_max name), (k + 1) * 20))
                else readdir_loop wanted fuel dir ((k + 1) * 20) st)
              (Listed Good Bad (slot st dir) cnt k)
      branch lt again false bad =
          Yields-mono (Listed Good Bad (slot st dir) cnt (k + 1)) _ _ again (skip k bad)
      branch lt again true good =
          let u = used (slot st dir k) good in
          let (s, n) = d.names.named k lt u in
          let short : length s < 15 =
            omega (arith, c_string_short (name_field (slot st dir k)) s n, whole_field k) in
          rw (n, take_short s 14 (omega arith))
            (
              k,
              omega arith,
              lt,
              refl,
              record { used = u; named = n },
              good,
              λ i a b. absurd (omega arith),
            )

-- A name other than "." and "..", and a slot that has none.
pub record IsProper (e : DirEntry) : Type 0 where
  pub used : in_use e ≡ true
  pub not_dot : Calls e (b'.' ∷ []) → ⊥
  pub not_dot_dot : Calls e dot_dot → ⊥

abbrev pub IsDots : DirEntry → Type 0
IsDots e = (name : List ℕ) → Calls e name → (name ≡ b'.' ∷ []) ⊎ (name ≡ dot_dot)

-- What `is_empty` says of the slots.
abbrev pub NamesLeft : (ℕ → DirEntry) → ℕ → Bool → Type 0
NamesLeft slots cnt true = (j : ℕ) → j < cnt → IsDots (slots j)
NamesLeft slots cnt false = (j : ℕ) × (j < cnt) × IsProper (slots j)

is_proper-Tells :
    (e : DirEntry)
    → (in_use e ≡ true → (s : List ℕ) × (c_string (name_field e) ≡ some s))
    → Yields (is_proper e) (Tells IsProper IsDots e)
unfolding is_proper
is_proper-Tells e named = elim (Bool-cases (in_use e)) [
  | inr u ↦ rw u (λ name c. absurd (let q = c.used in ground (arith, q, u)))
  | inl u ↦
      let (s, n) = named u in
      rw u (
        Yields-bind (Agrees s (b'.' ∷ [])) _ (str_eq (b'.' ∷ []) (name_field e)) _
          (str_eq-Agrees (b'.' ∷ []) (name_field e) s (omega arith, tt) n)
          (λ dot a.
            Yields-bind (Agrees s dot_dot) _ (str_eq dot_dot (name_field e)) _
              (str_eq-Agrees dot_dot (name_field e) s (omega arith, (omega arith, tt)) n)
              (λ dotdot b. told u s n dot dotdot a b)))
]
  where
    same :
        (s : List ℕ) → c_string (name_field e) ≡ some s → (name : List ℕ) → Calls e name → name ≡ s
    same s n name c = let m = c.named in cc

    told :
        in_use e ≡ true
        → (s : List ℕ) → c_string (name_field e) ≡ some s
        → (dot dotdot : Bool) → Agrees s (b'.' ∷ []) dot
        → Agrees s dot_dot dotdot
        → Tells IsProper IsDots e (not dot && not dotdot)
    told u s n true dotdot a b = λ name c. inl (same s n name c ∙ a)
    told u s n false true a b = λ name c. inr (same s n name c ∙ b)
    told u s n false false a b = record {
      used = u;
      not_dot = λ c. a (sym (same s n (b'.' ∷ []) c));
      not_dot_dot = λ c. b (sym (same s n dot_dot c));
    }

module _ (st : Store) (dir cnt : ℕ) (d : IsDir st dir cnt) where
  tells :
      (k : ℕ) → k < cnt → Yields (is_proper (slot st dir k)) (Tells IsProper IsDots (slot st dir k))
  tells k lt = is_proper-Tells (slot st dir k) (d.names.named k lt)

  -- `dir_readdir_2` from a slot of a well-formed directory ends without a fault: it returns the name of
  -- the first slot from there that is in use and not "." or "..", and moves behind it; or it returns false
  -- at the end of the directory, when no such slot is left.
  pub dir_readdir_2-Listed :
      (k : ℕ)
      → k ≤ cnt
      → Yields (dir_readdir_2 dir (k * entry_size) st) (Listed IsProper IsDots (slot st dir) cnt k)
  unfolding dir_readdir_2
  dir_readdir_2-Listed k h =
      readdir_loop-Listed st dir cnt d IsProper IsDots is_proper tells (λ e p. p.used) max_entries k
        h (omega (arith, fewer_than_max st dir cnt d.file))

  is_empty_loop-names :
      (fuel k : ℕ)
      → k ≤ cnt
      → cnt < fuel + k
      → ((j : ℕ) → j < k → IsDots (slot st dir j))
      → Yields (is_empty_loop fuel dir (k * entry_size) st) (NamesLeft (slot st dir) cnt)
  unfolding is_empty_loop
  is_empty_loop-names zero k p q before = absurd (omega arith)
  is_empty_loop-names (suc fuel) k p q before = elim (Bool-cases (k == cnt)) [
    | inl e ↦
        rw (eq_of_== k cnt e, read_end st dir cnt d.file)
          (λ j h. before j (omega (arith, eq_of_== k cnt e)))
    | inr e ↦
        let lt : k < cnt = ground (arith, ne_of_== k cnt e) in
        let step : k * 20 + 20 ≡ (k + 1) * 20 = omega arith in
        rw (read_slot st dir cnt d.file k lt, whole_slot st dir k, step)
          (Yields-bind (Tells IsProper IsDots (slot st dir k)) _ (is_proper (slot st dir k)) _
            (tells k lt)
            (λ b h.
              branch lt
                (λ older. is_empty_loop-names fuel (k + 1) (omega arith) (omega arith) older) b h))
  ]
    where
      branch :
          k < cnt
          → (((j : ℕ) → j < k + 1 → IsDots (slot st dir j))
              → Yields (is_empty_loop fuel dir ((k + 1) * 20) st) (NamesLeft (slot st dir) cnt))
          → (b : Bool) → Tells IsProper IsDots (slot st dir k) b
          → Yields
              (if b then some false else is_empty_loop fuel dir ((k + 1) * 20) st)
              (NamesLeft (slot st dir) cnt)
      branch lt again true good = (k, lt, good)
      branch lt again false bad = again (λ j h. elim (Bool-cases (j == k)) [
        | inl a ↦ rw (eq_of_== j k a) bad
        | inr a ↦ before j (ground (arith, ne_of_== j k a))
      ])

  -- `is_empty` of a well-formed directory ends without a fault, and is true exactly when the slots in use
  -- have no other names than "." and "..".
  pub is_empty-names : Yields (is_empty dir st) (NamesLeft (slot st dir) cnt)
  unfolding is_empty
  is_empty-names =
      is_empty_loop-names max_entries 0 (omega arith)
        (omega (arith, fewer_than_max st dir cnt d.file)) (λ j h. absurd (omega arith))

-- `dir_readdir` from a slot of a well-formed directory ends without a fault: it returns the name of the
-- first slot in use from there and moves behind it, or false at the end of the directory, when no slot
-- in use is left.
pub dir_readdir-Listed :
    (st : Store) (dir cnt : ℕ)
    → IsDir st dir cnt
    → (k : ℕ) → k ≤ cnt
    → Yields
        (dir_readdir dir (k * entry_size) st)
        (Listed (λ e. in_use e ≡ true) (λ e. in_use e ≡ false) (slot st dir) cnt k)
unfolding dir_readdir
dir_readdir-Listed st dir cnt d k h =
    readdir_loop-Listed st dir cnt d (λ e. in_use e ≡ true) (λ e. in_use e ≡ false)
      (λ e. some (in_use e)) (λ k lt. by_bit (in_use (slot st dir k)) (slot st dir k) refl)
      (λ e p. p) max_entries k h (omega (arith, fewer_than_max st dir cnt d.file))
  where
    by_bit :
        (b : Bool) (e : DirEntry)
        → in_use e ≡ b
        → Tells (λ e. in_use e ≡ true) (λ e. in_use e ≡ false) e b
    by_bit true e h = h
    by_bit false e h = h
