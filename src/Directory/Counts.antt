-- ===== src/Directory/Counts.antt =====
-- The table of open inodes on a walk: the openers that each call adds and takes, while no inode is
-- marked as removed.
use group.Base.{
  ℕ, ◌+◌, ◌<◌, ◌≡◌, refl, ap, true, false, Option, none, some, List, [], ◌∷◌, ◌==◌, if◌then◌else◌,
  ◌>>=◌, All, arith, Bool-cases, inl, inr, eq_of_==, ne_of_==, Yields, Yields-bind, Yields-both,
  Yields-mono,
}
use group.Inode.{Inode, Store}
use group.Inode.Table.{
  open_loop, open_new, inode_open, inode_reopen, change, close_loop, inode_close, dispose,
}
use group.Inode.Counts.{
  openers, IsTable, Opened, Closed, Searched, inode_open-Opened, open_loop-Searched,
  close_loop-Closed,
}
use group.Directory.{inode_at}
use group.Directory.Walk.{Fs, inode_is, to_be_removed, dir_close}

abbrev pub NoneRemoved : List Inode → Type 0
NoneRemoved = All (λ i. i.removed ≡ false)

-- A sound table in which no inode waits for its removal.
pub record IsClean (t : List Inode) : Type 0 where
  pub sound : IsTable t
  pub kept : NoneRemoved t

abbrev pub one_at : ℕ → ℕ → ℕ
one_at s x = if x == s then 1 else 0

pub record OneMore (s : ℕ) (t t' : List Inode) : Type 0 where
  pub clean : IsClean t'
  pub counts : (x : ℕ) → openers x t' ≡ openers x t + one_at s x

pub record OneLess (s : ℕ) (t t' : List Inode) : Type 0 where
  pub clean : IsClean t'
  pub counts : (x : ℕ) → openers x t' + one_at s x ≡ openers x t

opened : (s : ℕ) (t t' : List Inode) → Opened s t t' → NoneRemoved t' → OneMore s t t'
opened s t t' o k = record {
  clean = record { sound = o.sound; kept = k };
  counts = λ x. elim (Bool-cases (x == s)) [
    | inl e ↦ rw e (rw (eq_of_== x s e) o.more)
    | inr e ↦ rw e (omega (arith, o.others x (ne_of_== x s e)))
  ];
}

abbrev KeptIn : Option (List Inode) → Type 0
KeptIn none = Unit
KeptIn (some t) = NoneRemoved t

open_loop-kept : (s : ℕ) (t : List Inode) → NoneRemoved t → KeptIn (open_loop s t)
unfolding open_loop
open_loop-kept s [] k = tt
open_loop-kept s (i ∷ is) (k, ks) = elim (Bool-cases (i.sector == s)) [
  | inl e ↦ rw e (k, ks)
  | inr e ↦ rw e (later (open_loop s is) (open_loop-kept s is ks))
]
  where
    later : (o : Option (List Inode)) → KeptIn o → KeptIn (o >>= λ r. some (i ∷ r))
    later none h = tt
    later (some r) h = (k, h)

pub inode_open-OneMore :
    (s : ℕ) (t : List Inode) → IsClean t → Yields (inode_open true s t) (OneMore s t)
unfolding inode_open open_new open_loop
inode_open-OneMore s t c =
    Yields-mono (λ t'. Opened s t t' × NoneRemoved t') (OneMore s t) (inode_open true s t)
      (Yields-both (Opened s t) NoneRemoved (inode_open true s t) (inode_open-Opened s t c.sound)
        (new (open_loop s t) (open_loop-kept s t c.kept)))
      (λ t' (o, k). opened s t t' o k)
  where
    new : (o : Option (List Inode)) → KeptIn o → Yields (open_new true s t o) NoneRemoved
    new none h = (refl, c.kept)
    new (some t') h = h

inode_reopen-open_loop : (s : ℕ) (t : List Inode) → inode_reopen s t ≡ open_loop s t
unfolding inode_reopen change open_loop
inode_reopen-open_loop s [] = refl
inode_reopen-open_loop s (i ∷ is) = elim (Bool-cases (i.sector == s)) [
  | inl e ↦ rw e refl
  | inr e ↦ rw e (ap (λ o. o >>= λ r. some (i ∷ r)) (inode_reopen-open_loop s is))
]

pub inode_reopen-OneMore :
    (s : ℕ) (t : List Inode) → IsClean t → 0 < openers s t → Yields (inode_reopen s t) (OneMore s t)
inode_reopen-OneMore s t c h =
    rw (inode_reopen-open_loop s t)
      (found (open_loop s t) (open_loop-Searched s t c.sound) (open_loop-kept s t c.kept))
  where
    found : (o : Option (List Inode)) → Searched s t o → KeptIn o → Yields o (OneMore s t)
    found none z k = omega (arith, z, h)
    found (some t') o k = opened s t t' o k

-- What a close frees was not removed.
abbrev Freed : Option Inode → Type 0
Freed none = Unit
Freed (some i) = i.removed ≡ false

close_loop-kept :
    (s : ℕ) (t : List Inode)
    → NoneRemoved t
    → 0 < openers s t
    → Yields (close_loop s t) (λ r. Freed r.0 × NoneRemoved r.1)
unfolding close_loop
close_loop-kept s [] k h = omega (arith, h)
close_loop-kept s (i ∷ is) (k, ks) h = elim (Bool-cases (i.sector == s)) [
  | inl e ↦ rw e (elim (Bool-cases (i.open_cnt == 1)) [
    | inl last ↦ rw last (k, ks)
    | inr more ↦ rw more (tt, (k, ks))
  ])
  | inr e ↦ rw e (
      Yields-bind (λ r. Freed r.0 × NoneRemoved r.1) (λ r. Freed r.0 × NoneRemoved r.1)
        (close_loop s is) _ (close_loop-kept s is ks (rw e at h))
        (λ (freed, r) (f, n). (f, (k, n))))
]

pub found_open : (s : ℕ) (t : List Inode) → 0 < openers s t → inode_is s t ≡ true
unfolding inode_at
found_open s [] h = absurd (omega arith)
found_open s (i ∷ is) h = elim (Bool-cases (i.sector == s)) [
  | inl e ↦ rw e refl
  | inr e ↦ rw e (found_open s is (rw e at h))
]

pub dir_close-OneLess :
    (s : ℕ) (t : List Inode) (st : Store)
    → IsClean t
    → 0 < openers s t
    → Yields (dir_close s (t, st)) (λ r. OneLess s t r.0 × (r.1 ≡ st))
unfolding dir_close inode_close dispose
dir_close-OneLess s t st c h = rw (found_open s t h) (
    Yields-bind (λ r. Closed s t r.1 × (Freed r.0 × NoneRemoved r.1)) _ (close_loop s t) _
      (Yields-both (λ r. Closed s t r.1) (λ r. Freed r.0 × NoneRemoved r.1) (close_loop s t)
        (close_loop-Closed s t c.sound h) (close_loop-kept s t c.kept h))
      (λ (freed, t') (cl, (f, k)). rest freed t' f (less t' cl k)))
  where
    less : (t' : List Inode) → Closed s t t' → NoneRemoved t' → OneLess s t t'
    less t' cl k = record {
      clean = record { sound = cl.sound; kept = k };
      counts = λ x. elim (Bool-cases (x == s)) [
        | inl e ↦ rw e (rw (eq_of_== x s e) cl.less)
        | inr e ↦ rw e (omega (arith, cl.others x (ne_of_== x s e)))
      ];
    }

    rest :
        (freed : Option Inode) (t' : List Inode)
        → Freed freed
        → OneLess s t t'
        → Yields {A = Fs}
            (dispose freed st >>= λ st. some (t', st))
            (λ r. OneLess s t r.0 × (r.1 ≡ st))
    rest none t' f l = (l, refl)
    rest (some i) t' f l = rw f (l, refl)

pub to_be_removed-kept :
    (s : ℕ) (t : List Inode) → NoneRemoved t → 0 < openers s t → to_be_removed s t ≡ some false
unfolding to_be_removed inode_at
to_be_removed-kept s [] k h = absurd (omega arith)
to_be_removed-kept s (i ∷ is) (k, ks) h = elim (Bool-cases (i.sector == s)) [
  | inl e ↦ rw (e, k) refl
  | inr e ↦ rw e (to_be_removed-kept s is ks (rw e at h))
]
