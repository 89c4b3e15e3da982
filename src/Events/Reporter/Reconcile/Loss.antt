-- ===== src/Events/Reporter/Reconcile/Loss.antt =====
-- What a reconciliation reports as lost.

use aikey_proxy.Prelude.{
  Bool-cases, List, Option, String, [], arith, eq_iff, if◌then◌else◌, inl, inr, none, refl, some,
  true, ◌==◌, ◌∙◌, ◌∷◌, ◌≡◌,
}
use aikey_proxy.Prelude.Lists.{All}
use aikey_proxy.Events.Reporter.{Reporter, World, ticked}
use aikey_proxy.Events.Reporter.Reconcile.{
  Ending, ReconcileResult, Reconciling, failed, finished, lane_pass, lanes, max_reconcile_windows,
  more, no_result, of_completeness, reconcile_against,
}
use aikey_proxy.Events.Reporter.Reconcile.Delivered.{Accounted, Lost}
use aikey_proxy.Events.Reporter.Reconcile.Steps.{windows-Accounted}

module _ (join : String → String → String) (dir : String) (w : World) (source : String)
    (r0 : Reporter) where
  lane_pass-Accounted :
      (org source' : String) (r : Reporter) (res : ReconcileResult) (ending : Ending)
      → source' ≡ source
      → Accounted w source r0 r res
      → let y = lane_pass join dir w org source' r res ending in Accounted w source r0 y.0 y.1
  unfolding lane_pass
  lane_pass-Accounted org source' r res failed e acc = acc
  lane_pass-Accounted org source' r res more e acc = acc
  lane_pass-Accounted org source' r res finished e acc =
      rw e (windows-Accounted join dir w source r0 max_reconcile_windows true org r res acc)

  lanes-Accounted :
      (list : List (String × String)) (x : Reconciling)
      → r0.source_id ≡ source
      → Accounted w source r0 x.0 x.1
      → let y = lanes join dir w list x in Accounted w source r0 y.0 y.1
  unfolding lanes
  lanes-Accounted [] x own acc = acc
  lanes-Accounted ((org, source') ∷ rest) (r, res, ending) own acc =
      lanes-Accounted rest
        (if source' == r.source_id
          then lane_pass join dir w org source' r res ending
          else (r, res, ending))
        own
        (elim (Bool-cases (source' == r.source_id)) [
          | inr e ↦ rw e acc
          | inl e ↦ rw e (
              lane_pass-Accounted org source' r res ending
                ((eq_iff source' r.source_id).0 e ∙ acc.0 ∙ own) acc)
        ])

  of_completeness-Accounted :
      (answer : Option (List (String × String))) (r : Reporter) (res : ReconcileResult)
      → r0.source_id ≡ source
      → Accounted w source r0 r res
      → let y = of_completeness join dir w answer r res in Accounted w source r0 y.0 y.1
  unfolding of_completeness
  of_completeness-Accounted none r res own acc = acc
  of_completeness-Accounted (some list) r res own acc =
      lanes-Accounted list (r, res, finished) own acc

module _ (join : String → String → String) (dir : String) (w : World) where
  -- A reconciliation with a collector reports a number as lost only if that collector listed it as missing, and either it was, when the log was read, in no file of the log that could be read to its end (a file that could not is skipped, and may hold it), or its resends were delivered three times, counting the deliveries before this pass; whatever fails and however the answers go on, also when an answer is still truncated after 100 windows.
  pub reconcile-Lost :
      (r : Reporter)
      → let res = (reconcile_against join dir w r).1 in
        All (λ p. Lost w r.source_id r res.delivered p.1) res.posted
  unfolding reconcile_against
  reconcile-Lost r =
      (of_completeness-Accounted join dir w r.source_id r (w.completeness r.tick) (ticked r)
        no_result refl (refl, λ seq. omega arith, _)).2
