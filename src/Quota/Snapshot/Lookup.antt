-- ===== src/Quota/Snapshot/Lookup.antt =====
-- `SubjectsForSeat` after `ReplaceAll`, against the list of subjects that was loaded.
use aikey_proxy.Prelude.{String, Option, none, some, List, [], ◌∷◌, ◌≡◌, refl, empty_map}
use aikey_proxy.Quota.Amount.{Amount}
use aikey_proxy.Quota.Snapshot.{
  Snapshot, Subject, group_subjects, replace_all, subjects_for_seat, listed, load_all,
}
use aikey_proxy.Quota.Snapshot.Index.{
  groups_of, last_with_id, named, index-load_all, subjects-load_all,
}

module _ (m : Amount) where
  -- The seat's own subject, then its groups in the order of the list.
  pub seat_subjects : List (Subject m) → String → List (Subject m)
  unfolding listed
  seat_subjects subs seat =
      listed m (last_with_id m subs seat none) (named m subs (groups_of m subs seat))

  listed-elim :
      (o : Option (Subject m)) (rest : List (Subject m))
      → listed m o rest ≡ (elim o [ none ↦ rest | some sub ↦ sub ∷ rest ])
  unfolding listed
  listed-elim none rest = refl
  listed-elim (some sub) rest = refl

  named-group_subjects :
      (subs : List (Subject m)) (gids : List String)
      → group_subjects m (load_all m subs (empty_map, empty_map)).0 gids ≡ named m subs gids
  unfolding group_subjects named listed
  named-group_subjects subs [] = refl
  named-group_subjects subs (gid ∷ gids) =
      rw (subjects-load_all m subs (empty_map, empty_map) gid, named-group_subjects subs gids)
        (listed-elim (last_with_id m subs gid none) (named m subs gids))

  -- After a replacement, the subjects found for a seat are the last loaded subject with the seat's id, then, for each group subject in the order loaded and each time the seat stands among its members, the last loaded subject with that group's id. Nothing of the replaced rule set is left.
  pub subjects-replace_all :
      (s : Snapshot m) (subs : List (Subject m)) (seat : String)
      → subjects_for_seat m (replace_all m s subs) seat ≡ seat_subjects subs seat
  unfolding subjects_for_seat replace_all seat_subjects
  subjects-replace_all s subs seat =
      rw
        (
          index-load_all m subs (empty_map, empty_map) seat,
          subjects-load_all m subs (empty_map, empty_map) seat,
          named-group_subjects subs (groups_of m subs seat),
        )
        refl
