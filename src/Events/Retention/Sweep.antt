-- ===== src/Events/Retention/Sweep.antt =====
-- The first stage of the sweep: a live file stays, or is in the archive.

use aikey_proxy.Prelude.{
  subst, Bool, false, not, Bool-cases, List, [], ap, eq_iff, if◌then◌else◌, inl, inr, refl, true, ℕ,
  ◌++◌, ◌==◌, ◌∙◌, ◌∷◌, ◌≡◌, ◌⊎◌,
}
use aikey_proxy.Prelude.Lists.{Any}
use aikey_proxy.Events.Retention.{
  Answer, Disk, archive_files, archived, completed, failed, missing, stays, with_error, LogFile,
  Swept, is_before, put_file,
}

abbrev pub Has : LogFile → List LogFile → Type 0
Has f files = Any (λ g. f ≡ g) files

-- The file's hour lies that many days before the time of the sweep.
abbrev pub Old : ℕ → LogFile → Type 0
Old cutoff f = is_before f.stamp cutoff ≡ true

pub Has-left : (f : LogFile) (xs ys : List LogFile) → Has f xs → Has f (xs ++ ys)
Has-left f [] ys m = absurd m
Has-left f (x ∷ xs) ys (inl here) = inl here
Has-left f (x ∷ xs) ys (inr later) = inr (Has-left f xs ys later)

pub Has-right : (f : LogFile) (xs ys : List LogFile) → Has f ys → Has f (xs ++ ys)
Has-right f [] ys m = m
Has-right f (x ∷ xs) ys m = inr (Has-right f xs ys m)

pub put_file-new : (f : LogFile) (files : List LogFile) → Has f (put_file f files)
unfolding put_file
put_file-new f [] = inl refl
put_file-new f (g ∷ files) =
    Has-right f (if g.name == f.name then [] else g ∷ []) (put_file f files) (put_file-new f files)

pub put_file-old :
    (f g : LogFile) (files : List LogFile)
    → Has g files
    → Has g (put_file f files) ⊎ (g.name ≡ f.name)
unfolding put_file
put_file-old f g [] m = absurd m
put_file-old f g (h ∷ files) (inr later) = elim (put_file-old f g files later) [
  | inl kept ↦ inl (Has-right g (if h.name == f.name then [] else h ∷ []) (put_file f files) kept)
  | inr same ↦ inr same
]
put_file-old f g (h ∷ files) (inl here) = elim (Bool-cases (h.name == f.name)) [
  | inl same ↦ inr (ap (λ (x : LogFile). x.name) here ∙ (eq_iff h.name f.name).0 same)
  | inr other ↦ rw other (inl (inl here))
]

pub if-either :
    (P : Swept → Type 0) (x y : Swept) (b : Bool)
    → (b ≡ true → P x)
    → (b ≡ false → P y)
    → P (if b then x else y)
if-either P x y true h k = h refl
if-either P x y false h k = k refl

pub was_false : (b : Bool) → not b ≡ true → b ≡ false
was_false true h = cc
was_false false h = refl

pub was_true : (b : Bool) → not b ≡ false → b ≡ true
was_true true h = refl
was_true false h = cc

-- The loops over the directory and over the archive.
module _ (disk : Disk) (cutoff : ℕ) (f : LogFile) where
  archived-live :
      (g : LogFile) (a : Answer) (s : Swept) → Has f s.live → Has f (archived g a s).live
  unfolding archived stays with_error
  archived-live g completed s m = m
  archived-live g missing s m = m
  archived-live g failed s m = Has-left f s.live (g ∷ []) m

  archived-archive :
      (g : LogFile) (a : Answer) (s : Swept)
      → Has f s.archive
      → Has f (archived g a s).archive ⊎ (f.name ≡ g.name)
  unfolding archived stays with_error
  archived-archive g completed s m = put_file-old g f s.archive m
  archived-archive g missing s m = inl m
  archived-archive g failed s m = inl m

  pub archive_files-live :
      (files : List LogFile) (s : Swept)
      → Has f s.live
      → Has f (archive_files disk cutoff files s).live
  unfolding archive_files with_error stays
  archive_files-live [] s m = m
  archive_files-live (g ∷ files) s m =
      let later = archive_files disk cutoff files (stays g s) in
      let moved = archive_files disk cutoff files (archived g (disk.rename g.name) s) in
      let stop = with_error (record s { live = s.live ++ (g ∷ files) }) in
      if-either (λ t. Has f t.live) later (if disk.mkdir_fails g.name then stop else moved)
        (not (is_before g.stamp cutoff))
        (λ young. archive_files-live files (stays g s) (Has-left f s.live (g ∷ []) m))
        (λ old.
          if-either (λ t. Has f t.live) stop moved (disk.mkdir_fails g.name)
            (λ bad. Has-left f s.live (g ∷ files) m)
            (λ good.
              archive_files-live files (archived g (disk.rename g.name) s)
                (archived-live g (disk.rename g.name) s m)))

  -- An archived file stays, unless one of its name comes after it.
  pub archive_files-archive :
      (files : List LogFile) (s : Swept)
      → Has f s.archive
      → Has f (archive_files disk cutoff files s).archive ⊎ Any (λ g. f.name ≡ g.name) files
  unfolding archive_files with_error stays
  archive_files-archive [] s m = inl m
  archive_files-archive (g ∷ files) s m =
      let later = archive_files disk cutoff files (stays g s) in
      let moved = archive_files disk cutoff files (archived g (disk.rename g.name) s) in
      let stop = with_error (record s { live = s.live ++ (g ∷ files) }) in
      let Good : Swept → Type 0 = λ t. Has f t.archive ⊎ Any (λ g. f.name ≡ g.name) (g ∷ files) in
      if-either Good later (if disk.mkdir_fails g.name then stop else moved)
        (not (is_before g.stamp cutoff))
        (λ young. elim (archive_files-archive files (stays g s) m) [
          | inl kept ↦ inl kept
          | inr same ↦ inr (inr same)
        ])
        (λ old.
          if-either Good stop moved (disk.mkdir_fails g.name) (λ bad. inl m)
            (λ good. elim (archived-archive g (disk.rename g.name) s m) [
              | inr same ↦ inr (inl same)
              | inl kept ↦
                  elim (archive_files-archive files (archived g (disk.rename g.name) s) kept) [
                    | inl still ↦ inl still
                    | inr same ↦ inr (inr same)
                  ]
            ]))

  abbrev pub Archiving : Swept → Type 0
  Archiving t = Has f t.live ⊎ (Old cutoff f × ((disk.rename f.name ≡ missing) ⊎ Has f t.archive))

  archived-own :
      (a : Answer) (s : Swept)
      → Has f (archived f a s).live ⊎ ((a ≡ missing) ⊎ Has f (archived f a s).archive)
  unfolding archived stays with_error
  archived-own completed s = inr (inr (put_file-new f s.archive))
  archived-own missing s = inr (inl refl)
  archived-own failed s = inl (Has-right f s.live (f ∷ []) (inl refl))

  same-Has :
      (files : List LogFile)
      → ((g : LogFile) → Has g files → f.name ≡ g.name → f ≡ g)
      → Any (λ g. f.name ≡ g.name) files
      → Has f files
  same-Has [] one m = absurd m
  same-Has (g ∷ files) one (inl same) = inl (one g (inl refl) same)
  same-Has (g ∷ files) one (inr later) = inr (same-Has files (λ x m e. one x (inr m) e) later)

  first-Archiving :
      (files : List LogFile) (s : Swept)
      → ((g : LogFile) → Has g files → f.name ≡ g.name → f ≡ g)
      → ((t : Swept) → Has f files → Archiving (archive_files disk cutoff files t))
      → Archiving (archive_files disk cutoff (f ∷ files) s)
  unfolding archive_files with_error stays
  first-Archiving files s one again =
      let later = archive_files disk cutoff files (stays f s) in
      let next = archived f (disk.rename f.name) s in
      let moved = archive_files disk cutoff files next in
      let stop = with_error (record s { live = s.live ++ (f ∷ files) }) in
      if-either Archiving later (if disk.mkdir_fails f.name then stop else moved)
        (not (is_before f.stamp cutoff))
        (λ young.
          inl (archive_files-live files (stays f s) (Has-right f s.live (f ∷ []) (inl refl))))
        (λ old.
          let before = was_true (is_before f.stamp cutoff) old in
          if-either Archiving stop moved (disk.mkdir_fails f.name)
            (λ bad. inl (Has-right f s.live (f ∷ files) (inl refl)))
            (λ good. elim (archived-own (disk.rename f.name) s) [
              | inl stayed ↦ inl (archive_files-live files next stayed)
              | inr (inl gone) ↦ inr (before, inl gone)
              | inr (inr there) ↦ elim (archive_files-archive files next there) [
                | inl kept ↦ inr (before, inr kept)
                | inr same ↦ again next (same-Has files one same)
              ]
            ]))

  pub archive_files-Archiving :
      (files : List LogFile) (s : Swept)
      → ((g : LogFile) → Has g files → f.name ≡ g.name → f ≡ g)
      → Has f files
      → Archiving (archive_files disk cutoff files s)
  unfolding archive_files
  archive_files-Archiving [] s one m = absurd m
  archive_files-Archiving (g ∷ files) s one (inl here) =
      subst (λ (x : LogFile). Archiving (archive_files disk cutoff (x ∷ files) s)) here
        (first-Archiving files s (λ x m e. one x (inr m) e)
          (λ t m. archive_files-Archiving files t (λ x n e. one x (inr n) e) m))
  archive_files-Archiving (g ∷ files) s one (inr later) =
      let rest = λ (t : Swept). archive_files-Archiving files t (λ x n e. one x (inr n) e) later in
      let stop = with_error (record s { live = s.live ++ (g ∷ files) }) in
      let next = archived g (disk.rename g.name) s in
      if-either Archiving (archive_files disk cutoff files (stays g s))
        (if disk.mkdir_fails g.name then stop else archive_files disk cutoff files next)
        (not (is_before g.stamp cutoff)) (λ young. rest (stays g s))
        (λ old.
          if-either Archiving stop (archive_files disk cutoff files next) (disk.mkdir_fails g.name)
            (λ bad. inl (Has-right f s.live (g ∷ files) (inr later))) (λ good. rest next))
