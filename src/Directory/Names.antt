-- ===== src/Directory/Names.antt =====
-- directory.c: the names that the slots of a directory hold, and comparison with them.
use group.Base.{
  ℕ, ◌<◌, ◌≡◌, ◌≢◌, sym, ap, ◌∙◌, Bool, true, false, some, List, [], ◌∷◌, ◌==◌, if◌then◌else◌,
  arith, All, Bool-cases, inl, inr, Yields, Yields-mono, eq_of_==, ne_of_==, ==_ne, Option-cases,
  ap₂,
}
use group.Directory.{DirEntry, in_use, name_field, inode_sector, str_eq, matches, c_string}

-- A string has no null byte inside.
abbrev pub IsText : List ℕ → Type 0
IsText = All (λ c. c ≢ 0)

-- The slot is in use, and its name is `name`.
pub record Calls (e : DirEntry) (name : List ℕ) : Type 0 where
  pub used : in_use e ≡ true
  pub named : c_string (name_field e) ≡ some name

-- The slots in use have names that end in their fields, no two the same.
pub record IsNames (slots : ℕ → DirEntry) (cnt : ℕ) : Type 0 where
  pub named :
      (k : ℕ)
      → k < cnt
      → in_use (slots k) ≡ true
      → (s : List ℕ) × (c_string (name_field (slots k)) ≡ some s)
  pub unique :
      (j k : ℕ) → j < cnt → k < cnt → (s : List ℕ) → Calls (slots j) s → Calls (slots k) s → j ≡ k

-- The directory maps the name to the sector.
pub record Maps (slots : ℕ → DirEntry) (cnt : ℕ) (name : List ℕ) (sector : ℕ) : Type 0 where
  pub at : ℕ
  pub inside : at < cnt
  pub calls : Calls (slots at) name
  pub leads : inode_sector (slots at) ≡ sector

-- What a comparison of two strings says.
abbrev pub Agrees : List ℕ → List ℕ → Bool → Type 0
Agrees s name true = s ≡ name
Agrees s name false = s ≢ name

c_string-cons :
    (c : ℕ) (field s : List ℕ)
    → c ≢ 0
    → c_string (c ∷ field) ≡ some s
    → (s' : List ℕ) × (c_string field ≡ some s') × (s ≡ c ∷ s')
unfolding c_string
c_string-cons c field s ne h = elim (Option-cases (c_string field)) [
  | inl e ↦ absurd (ground (arith, e, ==_ne c 0 ne))
  | inr (s', e) ↦ (s', e, ground (arith, e, ==_ne c 0 ne))
]

c_string-end : (c : ℕ) (field s : List ℕ) → c ≡ 0 → c_string (c ∷ field) ≡ some s → s ≡ []
unfolding c_string
c_string-end c field s z h = ground (arith, z)

no_string : (s : List ℕ) → c_string [] ≡ some s → ⊥
unfolding c_string
no_string s h = ground (arith, h)

-- `!strcmp` of a string and a terminated field is equality.
pub str_eq-Agrees :
    (name field s : List ℕ)
    → IsText name
    → c_string field ≡ some s
    → Yields (str_eq name field) (Agrees s name)
unfolding str_eq
str_eq-Agrees name [] s t h = absurd (no_string s h)
str_eq-Agrees [] (c ∷ field) s t h = elim (Bool-cases (c == 0)) [
  | inl e ↦ rw e (c_string-end c field s (eq_of_== c 0 e) h)
  | inr e ↦ rw e (let (s', q, w) = c_string-cons c field s (ne_of_== c 0 e) h in ground (arith, w))
]
str_eq-Agrees (x ∷ name) (c ∷ field) s t h = elim (Bool-cases (x == c)) [
  | inl e ↦
      let xc : x ≡ c = eq_of_== x c e in
      let nz : c ≢ 0 = λ z. t.0 (xc ∙ z) in
      let (s', q, w) = c_string-cons c field s nz h in
      rw e (
        Yields-mono (Agrees s' name) (Agrees s (x ∷ name)) (str_eq name field)
          (str_eq-Agrees name field s' t.1 q) (longer s' xc w))
  | inr e ↦ rw e (differ (ne_of_== x c e))
]
  where
    longer :
        (s' : List ℕ) → x ≡ c → s ≡ c ∷ s' → (b : Bool) → Agrees s' name b → Agrees s (x ∷ name) b
    longer s' xc w true a = w ∙ ap₂ (λ y ys. y ∷ ys) (sym xc) a
    longer s' xc w false a = λ q. a (ground (arith, q, w, xc))

    differ : x ≢ c → s ≢ x ∷ name
    differ ne q = elim (Bool-cases (c == 0)) [
      | inl e ↦ ground (arith, q, c_string-end c field s (eq_of_== c 0 e) h)
      | inr e ↦
          let (s', r, w) = c_string-cons c field s (ne_of_== c 0 e) h in ne (ground (arith, q, w))
    ]

-- A slot matches exactly when the name is its name.
pub matches-Calls :
    (e : DirEntry) (name : List ℕ)
    → IsText name
    → (in_use e ≡ true → (s : List ℕ) × (c_string (name_field e) ≡ some s))
    → Yields (matches name e) (λ b. if b then Calls e name else (Calls e name → ⊥))
unfolding matches
matches-Calls e name t named = elim (Bool-cases (in_use e)) [
  | inl u ↦
      let (s, q) = named u in
      rw u (
        Yields-mono (Agrees s name) _ (str_eq name (name_field e))
          (str_eq-Agrees name (name_field e) s t q) (said u s q))
  | inr u ↦ rw u (λ c. ground (arith, u, c.used))
]
  where
    said :
        in_use e ≡ true
        → (s : List ℕ) → c_string (name_field e) ≡ some s
        → (b : Bool) → Agrees s name b
        → if b then Calls e name else (Calls e name → ⊥)
    said u s q true a = record { used = u; named = q ∙ ap some a }
    said u s q false a = λ c. let n = c.named in a (cc)
