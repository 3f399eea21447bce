-- ===== src/Directory/Entries.antt =====
-- The table of open inodes under the calls that `dir_remove` makes, for an inode that somebody else has
-- open.
use group.Base.{
  ℕ, ◌<◌, ◌≡◌, ◌≢◌, refl, ◌∙◌, true, false, Option, none, some, List, [], ◌∷◌, ◌==◌, if◌then◌else◌,
  ◌>>=◌, arith, Bool-cases, inl, inr, eq_of_==, ne_of_==, ==_ne, Yields, Yields-bind, Yields-both,
}
use group.Inode.{Inode, Store}
use group.Inode.Table.{
  open_loop, open_new, inode_open, change, inode_remove, close_loop, inode_close, dispose,
}
use group.Inode.Counts.{
  openers, is_removed, IsTable, Opened, Closed, close_loop-Closed, Searched, open_loop-Searched,
}
use group.Directory.{inode_at}

abbrev pub denied : ℕ → List Inode → Option ℕ
denied sector [] = none
denied sector (inode ∷ rest) =
    if inode.sector == sector then some inode.deny_write_cnt else denied sector rest

-- An inode that is open and that nobody protects from writes.
pub record Writable (dir : ℕ) (t : List Inode) : Type 0 where
  pub inode : Inode
  pub found : inode_at dir t ≡ some inode
  pub here : inode.sector ≡ dir
  pub allowed : inode.deny_write_cnt ≡ 0

pub denied-Writable : (dir : ℕ) (t : List Inode) → denied dir t ≡ some 0 → Writable dir t
unfolding inode_at
denied-Writable dir [] h = absurd (ground (arith, h))
denied-Writable dir (i ∷ is) h = elim (Bool-cases (i.sector == dir)) [
  | inl e ↦ record {
    inode = i;
    found = rw e refl;
    here = eq_of_== i.sector dir e;
    allowed = ground (arith, h, e);
  }
  | inr e ↦
      let w = denied-Writable dir is (rw e at h) in
      record { inode = w.inode; found = rw e w.found; here = w.here; allowed = w.allowed }
]

-- The marks of all inodes are the same.
pub record SameMarks (t t' : List Inode) : Type 0 where
  pub denial : (x : ℕ) → denied x t' ≡ denied x t
  pub removal : (x : ℕ) → is_removed x t' ≡ is_removed x t

in_front : (i : Inode) (t t' : List Inode) → SameMarks t t' → SameMarks (i ∷ t) (i ∷ t')
in_front i t t' h = record {
  denial = λ x. rw (h.denial x) refl;
  removal = λ x. rw (h.removal x) refl;
}

abbrev Marked : List Inode → Option (List Inode) → Type 0
Marked t none = Unit
Marked t (some t') = SameMarks t t'

open_loop-SameMarks : (sector : ℕ) (t : List Inode) → Marked t (open_loop sector t)
unfolding open_loop
open_loop-SameMarks sector [] = tt
open_loop-SameMarks sector (i ∷ is) = elim (Bool-cases (i.sector == sector)) [
  | inl e ↦ rw e (record { denial = λ x. refl; removal = λ x. refl })
  | inr e ↦ rw e (later (open_loop sector is) (open_loop-SameMarks sector is))
]
  where
    later : (o : Option (List Inode)) → Marked is o → Marked (i ∷ is) (o >>= λ r. some (i ∷ r))
    later none h = tt
    later (some r) h = in_front i is r h

-- The inode counts one opener more, and its marks stay.
pub reopened :
    (sector : ℕ) (t : List Inode)
    → IsTable t
    → 0 < openers sector t
    → Yields (inode_open true sector t) (λ t'. Opened sector t t' × SameMarks t t')
unfolding inode_open open_new
reopened sector t ok h =
    found (open_loop sector t) (open_loop-SameMarks sector t) (open_loop-Searched sector t ok)
  where
    found :
        (o : Option (List Inode))
        → Marked t o
        → Searched sector t o
        → Yields (open_new true sector t o) (λ t'. Opened sector t t' × SameMarks t t')
    found none m s = absurd (omega (arith, h, s))
    found (some t') m s = (s, m)

-- `inode_remove` of an open inode marks it, and no other.
pub record MarkedRemoved (sector : ℕ) (t t' : List Inode) : Type 0 where
  pub sound : IsTable t'
  pub marked : is_removed sector t' ≡ true
  pub others : (x : ℕ) → x ≢ sector → is_removed x t' ≡ is_removed x t
  pub counts : (x : ℕ) → openers x t' ≡ openers x t

pub inode_remove-MarkedRemoved :
    (sector : ℕ) (t : List Inode)
    → IsTable t
    → 0 < openers sector t
    → Yields (inode_remove sector t) (MarkedRemoved sector t)
unfolding inode_remove change
inode_remove-MarkedRemoved sector [] ok h = omega (arith, h)
inode_remove-MarkedRemoved sector (i ∷ is) (pos, one, ok) h =
    elim (Bool-cases (i.sector == sector)) [
      | inl e ↦ rw e (record {
        sound = (pos, one, ok);
        marked = rw e refl;
        others = λ x q.
            rw (==_ne i.sector x (λ z. q (omega (arith, z, eq_of_== i.sector sector e)))) refl;
        counts = λ x. refl;
      })
      | inr e ↦ rw e (
          Yields-bind (MarkedRemoved sector is) (MarkedRemoved sector (i ∷ is))
            (inode_remove sector is) _ (inode_remove-MarkedRemoved sector is ok (rw e at h))
            (λ r m. record {
              sound = (pos, m.counts i.sector ∙ one, m.sound);
              marked = rw e m.marked;
              others = λ x q. elim (Bool-cases (i.sector == x)) [
                | inl a ↦ rw a refl
                | inr a ↦ rw a (m.others x q)
              ];
              counts = λ x. rw (m.counts x) refl;
            }))
    ]

-- A close that is not the last frees nothing and leaves the marks.
pub close_loop-SameMarks :
    (sector : ℕ) (t : List Inode)
    → IsTable t
    → 1 < openers sector t
    → Yields (close_loop sector t) (λ r. (r.0 ≡ none) × SameMarks t r.1)
unfolding close_loop
close_loop-SameMarks sector [] ok h = omega (arith, h)
close_loop-SameMarks sector (i ∷ is) (pos, one, ok) h = elim (Bool-cases (i.sector == sector)) [
  | inl e ↦
      let more : (i.open_cnt == 1) ≡ false = let q = rw e at h in ground (arith, q) in
      rw (e, more) (refl, record { denial = λ x. refl; removal = λ x. refl })
  | inr e ↦ rw e (
      Yields-bind (λ r. (r.0 ≡ none) × SameMarks is r.1)
        (λ r. (r.0 ≡ none) × SameMarks (i ∷ is) r.1) (close_loop sector is) _
        (close_loop-SameMarks sector is ok (rw e at h))
        (λ (freed, r) (f, m). (f, in_front i is r m)))
]

-- The table after an inode is opened, marked and closed again.
pub record MarkedClosed (sector : ℕ) (t t' : List Inode) : Type 0 where
  pub sound : IsTable t'
  pub counts : (x : ℕ) → openers x t' ≡ openers x t
  pub marked : is_removed sector t' ≡ true
  pub marks : (x : ℕ) → x ≢ sector → is_removed x t' ≡ is_removed x t

module _ (sector : ℕ) (t t₁ : List Inode) (o : Opened sector t t₁) (m : SameMarks t t₁)
    (is_open : 0 < openers sector t) (st : Store) where
  closed :
      (t₂ : List Inode)
      → MarkedRemoved sector t₁ t₂
      → Yields (inode_close sector (t₂, st)) (λ r. MarkedClosed sector t r.0 × (r.1 ≡ st))
  unfolding inode_close dispose
  closed t₂ r =
      let many : 1 < openers sector t₂ = omega (arith, r.counts sector, o.more) in
      Yields-bind (λ c. ((c.0 ≡ none) × SameMarks t₂ c.1) × Closed sector t₂ c.1) _
        (close_loop sector t₂) _
        (Yields-both (λ c. (c.0 ≡ none) × SameMarks t₂ c.1) (λ c. Closed sector t₂ c.1)
          (close_loop sector t₂) (close_loop-SameMarks sector t₂ r.sound many)
          (close_loop-Closed sector t₂ r.sound (omega arith)))
        (λ (freed, t₃) ((none_freed, same), c). rw none_freed (
          record {
            sound = c.sound;
            counts = λ x. elim (Bool-cases (x == sector)) [
              | inl e ↦ rw (eq_of_== x sector e) (omega (arith, c.less, r.counts sector, o.more))
              | inr e ↦ let ne = ne_of_== x sector e in c.others x ne ∙ r.counts x ∙ o.others x ne
            ];
            marked = same.removal sector ∙ r.marked;
            marks = λ x ne. same.removal x ∙ r.others x ne ∙ m.removal x;
          },
          refl,
        ))

  pub marked_closed :
      Yields
        (inode_remove sector t₁ >>= λ t₂. inode_close sector (t₂, st))
        (λ r. MarkedClosed sector t r.0 × (r.1 ≡ st))
  marked_closed =
      Yields-bind (MarkedRemoved sector t₁) _ (inode_remove sector t₁) _
        (inode_remove-MarkedRemoved sector t₁ o.sound (omega (arith, o.more))) (λ t₂ r. closed t₂ r)
