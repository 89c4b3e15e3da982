-- ===== src/Events/Reporter/Examples.antt =====
-- Concrete runs of the reporter.
use aikey_proxy.Events.Lanes.{lane_of_org}
use aikey_proxy.Prelude.{
  Bool, String, [], arith, empty_map, eqb, false, if◌then◌else◌, inl, none, refl, some, true, ℕ,
  ◌+◌, ◌||◌, ◌∷◌, ◌≡◌, ◌≢◌, ◌≤◌, ◌⊎◌,
}
use aikey_proxy.Prelude.Lists.{All, Any}
use aikey_proxy.Events.StateFile.{no_faults}
use aikey_proxy.Events.Wal.{Event, WalEntry, WalFile}
use aikey_proxy.Events.Reporter.{
  Reporter, Watch, World, upload_group_to, uploaded, url_for_route_source,
}
use aikey_proxy.Events.Reporter.Drain.{selected, upload_pending}
use aikey_proxy.Events.Reporter.Drain.Prune.{Removable}
use aikey_proxy.Events.Reporter.Drain.Complete.{clean_upload_handles}
use aikey_proxy.Events.Reporter.Stall.{auto_reconcile_min_interval, maybe_auto_reconcile, triggers}
use aikey_proxy.Events.Reporter.Stall.Fires.{Stuck, third_pass_fires}
use aikey_proxy.Events.Reporter.Pass.{Pass, drain_once, passes}
use aikey_proxy.Events.Reporter.Pass.Conserves.{handled_once, no_unconfirmed_deletion}
use aikey_proxy.Events.Reporter.Reconcile.{classify, reconcile_against}
use aikey_proxy.Events.Reporter.Reconcile.Classify.{Partitions, classify-Partitions, size}
use aikey_proxy.Events.Reporter.Reconcile.Delivered.{Lost}
use aikey_proxy.Events.Reporter.Reconcile.Loss.{reconcile-Lost}
use Prim.Native.String.{◌++◌ as text_append}

abbrev join : String → String → String
join dir file = text_append dir (text_append "/" file)

abbrev event : ℕ → Event
event seq = record {
  event_id = "e";
  org_id = "acme";
  route_source = "team";
  source_id = "src";
  source_seq = some seq;
}

abbrev entry : ℕ → WalEntry
entry seq = record { source_id = "src"; source_seq = seq; schema_version = 2; event = event seq }

abbrev old_file : WalFile
old_file = record { hour = 7; lines = some (entry 3) ∷ none ∷ [] }

-- The collector stores up to 3, lists 5 and 9 as missing, and takes the lost ones.
abbrev world : World
world = record {
  now = λ t. t;
  expired = λ t. false;
  answer = λ t. uploaded (("src", 3) ∷ []);
  order = λ t. record { route_source = "team"; lane = "acme" } ∷ [];
  opening = λ t. record { stat = false; legacy = no_faults; seed = no_faults; own = no_faults };
  declared = λ t. true;
  sources = λ t. "src" ∷ [];
  routes = λ t. "team" ∷ [];
  log = λ t. old_file ∷ [];
  log_reads = λ t h. none;
  completeness = λ t. some (("acme", "src") ∷ []);
  gaps = λ t. some (5 ∷ 3 ∷ [], false);
  promoted = λ t. some 1;
  reconcile_ended = λ t. false;
}

abbrev watch : Watch
watch = record {
  last_confirmed_view = λ s. 0;
  stall_passes = 2;
  last_auto_reconcile_at = 0;
  last_periodic_sweep_at = 0;
  periodic_reconcile_interval = 3600;
  auto_reconcile_running = false;
}

abbrev pub start : Reporter
start = record {
  collector_routes = empty_map;
  collector_url = "http://collector";
  batch_size = 100;
  source_id = "src";
  seq_alloc = none;
  fs = record { files = empty_map; temp = none };
  sent_seq = λ s. 4;
  confirmed_seq = λ s. 0;
  seen_v1 = λ s. false;
  routed_seq = λ s. 0;
  switch_retry_at = empty_map;
  switch_backoff = λ s. 0;
  next_upload_attempt = none;
  consecutive_failures = 0;
  dead_letters = [];
  watch = watch;
  resend_delivered = λ s n. 0;
  tick = 40;
}

abbrev pass : Pass
pass = record {
  force = false;
  files = old_file ∷ [];
  current = some 8;
  reads = λ h. none;
  rereads = λ h. none;
  keep = λ f. false;
}

already : selected start (entry 3) ≡ none
unfolding selected
already = refl

handled_once_example : selected (passes join "wal" world (pass ∷ pass ∷ []) start) (entry 3) ≡ none
handled_once_example = handled_once join "wal" world (pass ∷ pass ∷ []) start (entry 3) already

no_unconfirmed_deletion_example :
    let o = drain_once join "wal" world pass (passes join "wal" world (pass ∷ []) start) in
    Any (λ g. old_file ≡ g) o.files ⊎ Removable world o.reporter (some 8) (λ h. none) old_file
no_unconfirmed_deletion_example =
    no_unconfirmed_deletion join "wal" world (pass ∷ []) pass start old_file (λ s. refl) (inl refl)

abbrev second : Reporter
second = (maybe_auto_reconcile world start).0

abbrev third : Reporter
third = (maybe_auto_reconcile world second).0

start-Stuck : Stuck world start
start-Stuck = (inl (omega arith), (omega arith, _))

second-Stuck : Stuck world second
unfolding maybe_auto_reconcile triggers
second-Stuck = (inl (omega arith), (omega arith, _))

third-Stuck : Stuck world third
unfolding maybe_auto_reconcile triggers
third-Stuck = (inl (omega arith), (omega arith, _))

late : 0 + auto_reconcile_min_interval ≤ world.now third.tick
unfolding maybe_auto_reconcile triggers
late = omega arith

third_pass_fires_example :
    ((maybe_auto_reconcile world start).1 ≡ true)
    ⊎ ((maybe_auto_reconcile world second).1 ≡ true)
    ⊎ ((maybe_auto_reconcile world third).1 ≡ true)
third_pass_fires_example =
    third_pass_fires world start second third refl start-Stuck second-Stuck third-Stuck refl refl
      late

clean : (upload_pending join "wal" world (event 5 ∷ []) start).retryable ≡ false
unfolding upload_pending url_for_route_source lane_of_org upload_group_to
clean = refl

has_url : url_for_route_source start "team" ≢ ""
unfolding url_for_route_source
has_url e = cc

clean_upload_handles_example :
    5 ≤ (upload_pending join "wal" world (event 5 ∷ []) start).reporter.sent_seq "src"
unfolding lane_of_org
clean_upload_handles_example =
    clean_upload_handles join "wal" world (event 5 ∷ []) start (event 5) clean (inl refl) has_url
      (inl refl)

-- 3 and 7 are in the log, and 7 was delivered three times.
abbrev in_log : ℕ → Bool
in_log seq = eqb seq 3 || eqb seq 7

abbrev tries : ℕ → ℕ
tries seq = if eqb seq 7 then 3 else 0

reconcile-Lost_example :
    let res = (reconcile_against join "wal" world start).1 in
    All (λ p. Lost world "src" start res.delivered p.1) res.posted
reconcile-Lost_example = reconcile-Lost join "wal" world start

-- 2 is owed, 5 is not in the log.
classify-Partitions_example :
    Partitions 2 in_log tries (2 ∷ 3 ∷ 5 ∷ 7 ∷ []) (classify 2 in_log tries (2 ∷ 3 ∷ 5 ∷ 7 ∷ []))
    × (size (classify 2 in_log tries (2 ∷ 3 ∷ 5 ∷ 7 ∷ [])) ≡ 4)
classify-Partitions_example = classify-Partitions 2 in_log tries (2 ∷ 3 ∷ 5 ∷ 7 ∷ [])
