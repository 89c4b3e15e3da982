-- ===== src/Quota/Snapshot/Index.antt =====
-- The index that `ReplaceAll` builds agrees with a walk over all subjects.
use mathlib.Core.List.{append-nil, append_assoc}
use aikey_proxy.Prelude.{
  String, Option, none, some, List, [], ◌∷◌, ◌++◌, ◌≡◌, refl, sym, ◌∙◌, inl, inr, Map, ◌==◌, eq_iff,
  if◌then◌else◌, Bool-cases,
}
use aikey_proxy.Prelude.Maps.{insert}
use aikey_proxy.Quota.Amount.{Amount}
use aikey_proxy.Quota.Snapshot.{Subject, kind_group, groups_at, add_members, load_subject, load_all}

-- A group id once for each time that the seat stands among its members.
member_groups : String → List String → String → List String
member_groups sid [] seat = []
member_groups sid (s ∷ ss) seat =
    let rest = member_groups sid ss seat in if s == seat then sid ∷ rest else rest

module _ (m : Amount) where
  -- The groups of a seat, read off the list of subjects.
  unfoldable pub groups_of : List (Subject m) → String → List String
  unfolding member_groups
  groups_of [] seat = []
  groups_of (sub ∷ subs) seat =
      (if sub.subject_kind == kind_group then member_groups sub.subject_id sub.members seat else [])
      ++ groups_of subs seat

  -- The last subject with an id.
  unfoldable pub last_with_id : List (Subject m) → String → Option (Subject m) → Option (Subject m)
  last_with_id [] sid found = found
  last_with_id (sub ∷ subs) sid found =
      last_with_id subs sid (if sub.subject_id == sid then some sub else found)

  groups-add_members :
      (sid : String) (ss : List String) (rev : Map (List String)) (seat : String)
      → groups_at m (add_members m sid ss rev seat)
        ≡ groups_at m (rev seat) ++ member_groups sid ss seat
  unfolding add_members member_groups
  groups-add_members sid [] rev seat = sym (append-nil (groups_at m (rev seat)))
  groups-add_members sid (s ∷ ss) rev seat =
      groups-add_members sid ss (insert s (groups_at m (rev s) ++ sid ∷ []) rev) seat
      ∙ elim (Bool-cases (s == seat)) [
        | inl e ↦
            rw (e, ← (eq_iff s seat).0 e)
              (append_assoc (groups_at m (rev s)) (sid ∷ []) (member_groups sid ss s))
        | inr e ↦ rw e
      ]

  pub index-load_all :
      (subs : List (Subject m)) (l : Map (Subject m) × Map (List String)) (seat : String)
      → groups_at m ((load_all m subs l).1 seat) ≡ groups_at m (l.1 seat) ++ groups_of subs seat
  unfolding load_all groups_of
  index-load_all [] l seat = sym (append-nil (groups_at m (l.1 seat)))
  index-load_all (sub ∷ subs) (sm, rev) seat =
      index-load_all subs (load_subject m sub (sm, rev)) seat
      ∙ elim (Bool-cases (sub.subject_kind == kind_group)) [
        | inl e ↦
            rw (e, groups-add_members sub.subject_id sub.members rev seat)
              (append_assoc (groups_at m (rev seat)) (member_groups sub.subject_id sub.members seat)
                (groups_of subs seat))
        | inr e ↦ rw e
      ]

  pub subjects-load_all :
      (subs : List (Subject m)) (l : Map (Subject m) × Map (List String)) (sid : String)
      → (load_all m subs l).0 sid ≡ last_with_id subs sid (l.0 sid)
  unfolding load_all last_with_id
  subjects-load_all [] l sid = refl
  subjects-load_all (sub ∷ subs) (sm, rev) sid =
      subjects-load_all subs (load_subject m sub (sm, rev)) sid

  -- The subjects named by a list of ids, among the loaded ones.
  unfoldable pub named : List (Subject m) → List String → List (Subject m)
  named subs [] = []
  named subs (gid ∷ gids) =
      let rest = named subs gids in
      elim (last_with_id subs gid none) [ none ↦ rest | some sub ↦ sub ∷ rest ]
