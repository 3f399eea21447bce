-- ===== src/Directory/Parts.antt =====
-- directory.c: `get_next_part` and `get_last_part` against a splitting of the path at its slashes.
use group.Base.{
  ℕ, zero, suc, ◌+◌, ◌≤◌, ◌<◌, ◌≡◌, refl, sym, ap, ap₂, ◌∙◌, Bool, true, false, ◌&&◌, none, some,
  List, [], ◌∷◌, ◌==◌, leb, if◌then◌else◌, length, arith, Bool-cases, inl, inr,
}
use group.Directory.{
  NextPart, end, too_long, got, slash, skip_slashes, copy_part, put_char, get_next_part, start_part,
  last_part, get_last_part,
}

-- The text up to the first slash, and the texts between the slashes behind it.
unfoldable pub pieces : List ℕ → List ℕ × List (List ℕ)
pieces [] = ([], [])
pieces (c ∷ p) =
    let rest = pieces p in if c == slash then ([], rest.0 ∷ rest.1) else (c ∷ rest.0, rest.1)

unfoldable pub nonempty : List (List ℕ) → List (List ℕ)
nonempty [] = []
nonempty ([] ∷ ws) = nonempty ws
nonempty ((c ∷ w) ∷ ws) = (c ∷ w) ∷ nonempty ws

-- The names that a path goes through.
unfoldable pub components : List ℕ → List (List ℕ)
unfolding pieces nonempty
components p = nonempty ((pieces p).0 ∷ (pieces p).1)

abbrev pub fit : List (List ℕ) → Bool
fit [] = true
fit (w ∷ ws) = leb (length w) 14 && fit ws

abbrev pub last_of : List ℕ → List (List ℕ) → List ℕ
last_of part [] = part
last_of part (w ∷ ws) = last_of w ws

-- The part copied, and what stands behind it; or a part that does not fit.
Copied : ℕ → List ℕ → NextPart → Type 0
Copied room src end = ⊥
Copied room src too_long = room < length (pieces src).0
Copied room src (got w rest) =
    ((pieces src).0 ≡ w)
    × (length w ≤ room)
    × (nonempty (pieces src).1 ≡ components rest)
    × (length w + length rest ≡ length src)

pub pieces-slash :
    (c : ℕ) (src : List ℕ)
    → (c == slash) ≡ true
    → pieces (c ∷ src) ≡ ([], (pieces src).0 ∷ (pieces src).1)
unfolding pieces
pieces-slash c src e = rw e refl

pub pieces-char :
    (c : ℕ) (src : List ℕ)
    → (c == slash) ≡ false
    → pieces (c ∷ src) ≡ (c ∷ (pieces src).0, (pieces src).1)
unfolding pieces
pieces-char c src e = rw e refl

components-slash :
    (c : ℕ) (src : List ℕ) → (c == slash) ≡ true → components (c ∷ src) ≡ components src
unfolding components nonempty
components-slash c src e = ap (λ p. nonempty (p.0 ∷ p.1)) (pieces-slash c src e)

components-char :
    (c : ℕ) (src : List ℕ)
    → (c == slash) ≡ false
    → components (c ∷ src) ≡ (c ∷ (pieces src).0) ∷ nonempty (pieces src).1
unfolding components nonempty
components-char c src e = ap (λ p. nonempty (p.0 ∷ p.1)) (pieces-char c src e)

pub components-eq : (src : List ℕ) → components src ≡ nonempty ((pieces src).0 ∷ (pieces src).1)
unfolding components
components-eq src = refl

no_pieces : (pieces [] ≡ ([], [])) × (components [] ≡ []) × (nonempty [] ≡ [])
unfolding pieces components nonempty
no_pieces = (refl, refl, refl)

at_end : (room : ℕ) → Copied room [] (got [] [])
unfolding Copied
at_end room = let (a, b, c) = no_pieces in rw (a, b, c) (refl, omega arith, refl, omega arith)

at_slash :
    (room c : ℕ) (src : List ℕ) → (c == slash) ≡ true → Copied room (c ∷ src) (got [] (c ∷ src))
unfolding Copied
at_slash room c src e = (
  ap (λ p. p.0) (pieces-slash c src e),
  omega arith,
  ap (λ p. nonempty p.1) (pieces-slash c src e)
      ∙ sym (components-eq src)
      ∙ sym (components-slash c src e),
  omega arith,
)

longer :
    (room c : ℕ) (src : List ℕ) (r : NextPart)
    → Copied room src r
    → (c == slash) ≡ false
    → Copied (suc room) (c ∷ src) (put_char c r)
unfolding Copied put_char
longer room c src end h e = absurd h
longer room c src too_long h e = rw (pieces-char c src e) (omega (arith, h))
longer room c src (got w rest) (a, b, d, l) e =
    rw (pieces-char c src e) (ap (λ x. c ∷ x) a, omega arith, d, omega arith)

pub pieces-nil : pieces [] ≡ ([], [])
pieces-nil = no_pieces.0

pub components-nil : components [] ≡ []
components-nil = no_pieces.1

pub components-root : components (slash ∷ []) ≡ []
components-root = components-slash slash [] refl ∙ components-nil

copy_part-Copied : (room : ℕ) (src : List ℕ) → Copied room src (copy_part room src)
unfolding copy_part Copied put_char
copy_part-Copied zero [] = at_end zero
copy_part-Copied (suc room) [] = at_end (suc room)
copy_part-Copied zero (c ∷ src) = elim (Bool-cases (c == slash)) [
  | inl e ↦ rw e (at_slash zero c src e)
  | inr e ↦ rw (e, pieces-char c src e) (omega arith)
]
copy_part-Copied (suc room) (c ∷ src) = elim (Bool-cases (c == slash)) [
  | inl e ↦ rw e (at_slash (suc room) c src e)
  | inr e ↦ rw e (longer room c src (copy_part room src) (copy_part-Copied room src) e)
]

skipped : (src : List ℕ) → components (skip_slashes src) ≡ components src
unfolding skip_slashes
skipped [] = refl
skipped (c ∷ src) = elim (Bool-cases (c == slash)) [
  | inl e ↦ rw e (skipped src ∙ sym (components-slash c src e))
  | inr e ↦ rw e refl
]

no_slash :
    (src : List ℕ) (c : ℕ) (rest : List ℕ) → skip_slashes src ≡ c ∷ rest → (c == slash) ≡ false
unfolding skip_slashes
no_slash [] c rest h = absurd (ground (arith, h))
no_slash (x ∷ src) c rest h = elim (Bool-cases (x == slash)) [
  | inl e ↦ no_slash src c rest (rw e at h)
  | inr e ↦ let q = rw e at h in ground (arith, q, e)
]

skipped-le : (src : List ℕ) → length (skip_slashes src) ≤ length src
unfolding skip_slashes
skipped-le [] = omega arith
skipped-le (c ∷ src) = ground (arith, skipped-le src)

-- The first component of the path, of 1 to 14 characters, and the path behind it; or one that is too
-- long; or no component.
unfoldable pub Split : List ℕ → NextPart → Type 0
Split src end = components src ≡ []
Split src too_long =
    (w : List ℕ) × (ws : List (List ℕ)) × (components src ≡ w ∷ ws) × (14 < length w)
Split src (got w rest) =
    (components src ≡ w ∷ components rest)
    × (0 < length w)
    × (length w ≤ 14)
    × (length rest < length src)

start_part-Split :
    (src : List ℕ) (rest : List ℕ) → skip_slashes src ≡ rest → Split src (start_part rest)
unfolding start_part Split Copied
start_part-Split src [] h = let (a, b, c) = no_pieces in sym (skipped src) ∙ ap components h ∙ b
start_part-Split src (c ∷ rest) h =
    let e = no_slash src c rest h in
    let q : components src ≡ (c ∷ (pieces rest).0) ∷ nonempty (pieces rest).1 =
      sym (skipped src) ∙ ap components h ∙ components-char c rest e in
    split e q (copy_part 14 (c ∷ rest)) (copy_part-Copied 14 (c ∷ rest))
      (omega (arith, skipped-le src, ap length h))
  where
    split :
        (c == slash) ≡ false
        → components src ≡ (c ∷ (pieces rest).0) ∷ nonempty (pieces rest).1
        → (r : NextPart) → Copied 14 (c ∷ rest) r
        → length (c ∷ rest) ≤ length src
        → Split src r
    split e q end h l = absurd h
    split e q too_long h l = (
      c ∷ (pieces rest).0,
      nonempty (pieces rest).1,
      q,
      omega (arith, h, ap (λ p. length p.0) (pieces-char c rest e)),
    )
    split e q (got w more) (a, b, d, m) l =
        let w₁ = sym (ap (λ p. p.0) (pieces-char c rest e)) ∙ a in
        let w₂ = sym (ap (λ p. nonempty p.1) (pieces-char c rest e)) ∙ d in
        let n : suc (length (pieces rest).0) ≡ length w = ap length w₁ in
        (q ∙ ap₂ (λ x xs. x ∷ xs) w₁ w₂, omega arith, b, omega arith)

-- `get_next_part` finds the first component of the path and the path behind it, of length 1 to 14; or
-- it finds that the component is too long, or that there is none.
pub get_next_part-Split : (src : List ℕ) → Split src (get_next_part src)
unfolding get_next_part
get_next_part-Split src = start_part-Split src (skip_slashes src) refl

-- `get_last_part` with fuel for each character of the path ends: it returns false when a component has
-- more than 14 characters, and otherwise leaves the last component in the buffer, or what was there
-- when there is none.
pub get_last_part-last_of :
    (fuel : ℕ) (part src : List ℕ)
    → length src < fuel
    → get_last_part fuel part src
      ≡ some (if fit (components src) then some (last_of part (components src)) else none)
unfolding get_last_part last_part Split
get_last_part-last_of zero part src h = absurd (omega arith)
get_last_part-last_of (suc fuel) part src h =
    round (get_next_part src) (get_next_part-Split src)
      (λ part rest l. get_last_part-last_of fuel part rest l)
  where
    round :
        (r : NextPart)
        → Split src r
        → ((part rest : List ℕ)
            → length rest < fuel
            → get_last_part fuel part rest
              ≡ some
                  (if fit (components rest) then some (last_of part (components rest)) else none))
        → last_part part (get_last_part fuel) r
          ≡ some (if fit (components src) then some (last_of part (components src)) else none)
    round end q again = rw q refl
    round too_long (w, ws, q, l) again =
        let n : leb (length w) 14 ≡ false = ground arith in rw (q, n) refl
    round (got w rest) (q, a, b, l) again =
        let n : leb (length w) 14 ≡ true = ground arith in rw (q, n) (again w rest (omega arith))
