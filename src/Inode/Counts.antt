-- ===== src/Inode/Counts.antt =====
-- inode.c: the openers of each inode.
use group.Base.{
  Bool, ℕ, ◌+◌, ◌<◌, ◌≡◌, ◌≢◌, refl, sym, ◌∙◌, true, false, Option, none, some, List, [], ◌∷◌, ◌==◌,
  if◌then◌else◌, ◌>>=◌, arith, Bool-cases, inl, inr, eq_of_==, ne_of_==, ==_ne, ==_self, Yields,
  Yields-bind,
}
use group.Inode.{Inode}
use group.Inode.Table.{open_loop, open_new, inode_open, close_loop}

-- The openers of the inode at a sector.
abbrev pub openers : ℕ → List Inode → ℕ
openers sector [] = 0
openers sector (inode ∷ rest) =
    if inode.sector == sector then inode.open_cnt else openers sector rest

-- Whether the inode at a sector is marked.
abbrev pub is_removed : ℕ → List Inode → Bool
is_removed sector [] = false
is_removed sector (inode ∷ rest) =
    if inode.sector == sector then inode.removed else is_removed sector rest

-- Every entry has an opener, and no sector has two entries.
abbrev pub IsTable : List Inode → Type 0
IsTable [] = Unit
IsTable (inode ∷ rest) = (0 < inode.open_cnt) × (openers inode.sector rest ≡ 0) × IsTable rest

-- One opener more, at `sector` alone.
pub record Opened (sector : ℕ) (t t' : List Inode) : Type 0 where
  pub sound : IsTable t'
  pub more : openers sector t' ≡ openers sector t + 1
  pub others : (x : ℕ) → x ≢ sector → openers x t' ≡ openers x t

pub record Closed (sector : ℕ) (t t' : List Inode) : Type 0 where
  pub sound : IsTable t'
  pub less : openers sector t' + 1 ≡ openers sector t
  pub others : (x : ℕ) → x ≢ sector → openers x t' ≡ openers x t

not_here :
    (i : Inode) (sector x : ℕ) → (i.sector == sector) ≡ true → x ≢ sector → (i.sector == x) ≡ false
not_here i sector x e h = ==_ne i.sector x (λ q. h (omega (arith, q, eq_of_== i.sector sector e)))

-- An entry in front that is another's.
in_front :
    (i : Inode) (sector x : ℕ) (t t' : List Inode)
    → (x ≢ sector → openers x t' ≡ openers x t)
    → x ≢ sector
    → openers x (i ∷ t') ≡ openers x (i ∷ t)
in_front i sector x t t' h q = elim (Bool-cases (i.sector == x)) [
  | inl e ↦ rw e refl
  | inr e ↦ rw e (h q)
]

-- A search of the list that finds the entry, or shows that there is none.
abbrev pub Searched : ℕ → List Inode → Option (List Inode) → Type 0
Searched sector t none = openers sector t ≡ 0
Searched sector t (some t') = Opened sector t t'

pub open_loop-Searched :
    (sector : ℕ) (t : List Inode) → IsTable t → Searched sector t (open_loop sector t)
unfolding open_loop
open_loop-Searched sector [] ok = refl
open_loop-Searched sector (i ∷ is) (pos, one, ok) = elim (Bool-cases (i.sector == sector)) [
  | inl e ↦ rw e (record {
    sound = (omega arith, one, ok);
    more = rw e refl;
    others = λ x h. rw (not_here i sector x e h) refl;
  })
  | inr e ↦ rw e (extend (open_loop sector is) (open_loop-Searched sector is ok) e)
]
  where
    extend :
        (o : Option (List Inode))
        → Searched sector is o
        → (i.sector == sector) ≡ false
        → Searched sector (i ∷ is) (o >>= λ r. some (i ∷ r))
    extend none h e = rw e h
    extend (some r) h e = record {
      sound = (pos, h.others i.sector (ne_of_== i.sector sector e) ∙ one, h.sound);
      more = rw e h.more;
      others = λ x q. in_front i sector x is r (h.others x) q;
    }

-- `inode_open`, when memory is there, ends without a fault: the inode at the sector has one opener
-- more, the others as many as before, and no sector has two entries.
pub inode_open-Opened :
    (sector : ℕ) (t : List Inode) → IsTable t → Yields (inode_open true sector t) (Opened sector t)
unfolding inode_open open_new
inode_open-Opened sector t ok = found (open_loop sector t) (open_loop-Searched sector t ok)
  where
    found :
        (o : Option (List Inode))
        → Searched sector t o
        → Yields (open_new true sector t o) (Opened sector t)
    found (some t') h = h
    found none h = record {
      sound = (omega arith, h, ok);
      more = rw (==_self sector) (omega (arith, h));
      others = λ x q. rw (==_ne sector x (λ e. q (sym e))) refl;
    }

pub close_loop-Closed :
    (sector : ℕ) (t : List Inode)
    → IsTable t
    → 0 < openers sector t
    → Yields (close_loop sector t) (λ r. Closed sector t r.1)
unfolding close_loop
close_loop-Closed sector [] ok h = omega (arith, h)
close_loop-Closed sector (i ∷ is) (pos, one, ok) h = elim (Bool-cases (i.sector == sector)) [
  | inl e ↦ rw e (elim (Bool-cases (i.open_cnt == 1)) [
    | inl last ↦ rw last (record {
      sound = ok;
      less =
          rw (e, sym (eq_of_== i.sector sector e)) (omega (arith, one, eq_of_== i.open_cnt 1 last));
      others = λ x q. rw (not_here i sector x e q) refl;
    })
    | inr more ↦ rw more (record {
      sound = (ground arith, one, ok);
      less = rw e (ground arith);
      others = λ x q. rw (not_here i sector x e q) refl;
    })
  ])
  | inr e ↦ rw e (
      Yields-bind (λ r. Closed sector is r.1) (λ r. Closed sector (i ∷ is) r.1)
        (close_loop sector is) _ (close_loop-Closed sector is ok (rw e at h))
        (λ (freed, r) c. record {
          sound = (pos, c.others i.sector (ne_of_== i.sector sector e) ∙ one, c.sound);
          less = rw e c.less;
          others = λ x q. in_front i sector x is r (c.others x) q;
        }))
]
