-- ===== src/Events/Reporter.antt =====
-- The usage reporter (internal/events/reporter.go): what it knows of the delivery, and one upload.
--
-- `World` is what the reporter does not decide: the clock, the end of its context, the answers of
-- the collectors and the order in which Go walks a map. Each reading of it is the next `tick`.
-- Sequence numbers are those that the allocator hands out, which are not negative.
pub mod Drain
pub mod Stall
pub mod Pass
pub mod Cursors
pub mod Reconcile
pub mod Examples
use aikey_proxy.Prelude.{
  ℕ, ◌+◌, String, Bool, true, false, Option, none, some, List, [], ◌∷◌, ◌++◌, Map, ◌==◌, ◌||◌, ltb,
  leb, eqb, if◌then◌else◌,
}
use aikey_proxy.Events.StateFile.{Fs}
use aikey_proxy.Events.Lanes.{
  LaneAllocator, LaneFaults, lane_of_org, allocated_lane, pending_floor, clear_pending_floor,
}
use aikey_proxy.Events.Wal.{Event, WalFile, Reads}

-- The response's `contiguous_seq` is walked in the order of the list; an old collector sends none.
pub data Answer : Type 0 where
  marshal_failed : Answer
  uploaded : List (String × ℕ) → Answer
  upload_failed : ℕ → Answer

pub record GroupKey : Type 0 where
  pub route_source : String
  pub lane : String

pub record World : Type 0 where
  pub now : ℕ → ℕ
  pub expired : ℕ → Bool
  pub answer : ℕ → Answer
  pub order : ℕ → List GroupKey
  pub opening : ℕ → LaneFaults
  pub declared : ℕ → Bool
  pub sources : ℕ → List String
  pub routes : ℕ → List String
  pub log : ℕ → List WalFile
  pub log_reads : ℕ → Reads
  pub completeness : ℕ → Option (List (String × String))
  pub gaps : ℕ → Option (List ℕ × Bool)
  pub promoted : ℕ → Option ℕ
  pub reconcile_ended : ℕ → Bool

-- A map to numbers or to Booleans, read with the zero value of a missing key.
abbrev pub Marks : Type 0
Marks = String → ℕ

abbrev pub assign {ℓ} : {V : Type ℓ} → String → V → (String → V) → String → V
assign k v m j = if k == j then v else m j

-- `if c > m[k] { m[k] = c }`
abbrev pub raise : String → ℕ → Marks → Marks
raise k c m = if ltb (m k) c then assign k c m else m

-- What the automatic reconciliation remembers of the passes before.
pub record Watch : Type 0 where
  pub last_confirmed_view : Marks
  pub stall_passes : ℕ
  pub last_auto_reconcile_at : ℕ
  pub last_periodic_sweep_at : ℕ
  pub periodic_reconcile_interval : ℕ
  pub auto_reconcile_running : Bool

-- The configuration and the state of `Reporter`; `dead_letters` is what was dead-lettered.
pub record Reporter : Type 0 where
  pub collector_routes : Map String
  pub collector_url : String
  pub batch_size : ℕ
  pub source_id : String
  pub seq_alloc : Option LaneAllocator
  pub fs : Fs
  pub sent_seq : Marks
  pub confirmed_seq : Marks
  pub seen_v1 : String → Bool
  pub routed_seq : Marks
  pub switch_retry_at : Map ℕ
  pub switch_backoff : Marks
  pub next_upload_attempt : Option ℕ
  pub consecutive_failures : ℕ
  pub dead_letters : List Event
  pub watch : Watch
  pub resend_delivered : String → ℕ → ℕ
  pub tick : ℕ

abbrev pub ticked : Reporter → Reporter
ticked r = record r { tick = r.tick + 1 }

-- A route that is there and empty has no destination.
routed : Option String → String → String
routed none fallback = fallback
routed (some url) fallback = url

unfoldable pub url_for_route_source : Reporter → String → String
unfolding routed
url_for_route_source r route_source = routed (r.collector_routes route_source) r.collector_url

pub is_terminal : ℕ → Bool
is_terminal status = eqb status 401 || eqb status 403 || eqb status 400

-- Seconds.
pub backoff_for_failures : ℕ → ℕ
backoff_for_failures n = if leb n 1 then 5 else if eqb n 2 then 15 else 60

seq_above : ℕ → Option ℕ → ℕ
seq_above hi none = hi
seq_above hi (some seq) = if ltb hi seq then seq else hi

high_water : ℕ → List Event → ℕ
unfolding seq_above
high_water hi [] = hi
high_water hi (ev ∷ batch) = high_water (seq_above hi ev.source_seq) batch

note_routed : String → List Event → Reporter → Reporter
unfolding high_water
note_routed url batch r =
    if url == "" || eqb (high_water 0 batch) 0
    then r
    else record r { routed_seq = raise url (high_water 0 batch) r.routed_seq }

lane_of_batch : List Event → String
lane_of_batch [] = ""
lane_of_batch (ev ∷ batch) = lane_of_org ev.org_id

with_alloc : Reporter → ℕ × LaneAllocator × Fs → Reporter
with_alloc r (_, l, fs) = record r { seq_alloc = some l; fs = fs }

-- The high-water stamp of the request may open the lane.
stamp_of :
    (String → String → String)
    → String
    → World
    → String
    → Option LaneAllocator
    → Reporter
    → Reporter
unfolding with_alloc
stamp_of join dir w lane none r = r
stamp_of join dir w lane (some l) r =
    with_alloc (ticked r) (allocated_lane join dir (w.opening r.tick) l lane r.fs)

abbrev pub switch_backoff_min : ℕ
switch_backoff_min = 2

abbrev pub switch_backoff_max : ℕ
switch_backoff_max = 60

-- Twice the last delay, in seconds and within the bounds.
longer : ℕ → ℕ
longer delay =
    let twice = delay + delay in
    if ltb switch_backoff_max twice
    then switch_backoff_max
    else if ltb twice switch_backoff_min
    then switch_backoff_min
    else twice

still_waiting : Option ℕ → ℕ → Bool
still_waiting none now = false
still_waiting (some at) now = ltb now at

declared_switch : String → LaneAllocator → Bool → ℕ → Reporter → Reporter
unfolding longer
declared_switch lane l true now r = record r {
  switch_retry_at = λ j. if lane == j then none else r.switch_retry_at j;
  switch_backoff = assign lane 0 r.switch_backoff;
  seq_alloc = some (clear_pending_floor l lane);
}
declared_switch lane l false now r = record r {
  switch_backoff = assign lane (longer (r.switch_backoff lane)) r.switch_backoff;
  switch_retry_at = assign lane (some (now + longer (r.switch_backoff lane))) r.switch_retry_at;
}

switch_of : World → String → Option LaneAllocator → Reporter → Reporter
unfolding declared_switch still_waiting
switch_of w lane none r = r
switch_of w lane (some l) r =
    if eqb (pending_floor l lane) 0 || still_waiting (r.switch_retry_at lane) (w.now r.tick)
    then r
    else declared_switch lane l (w.declared r.tick) (w.now (r.tick + 1)) (ticked r)

pub declare_stream_switch : World → String → Reporter → Reporter
unfolding switch_of
declare_stream_switch w lane r = switch_of w lane r.seq_alloc r

-- What happens before the request is sent.
prepare :
    (String → String → String) → String → World → String → String → List Event → Reporter → Reporter
unfolding note_routed stamp_of
prepare join dir w url lane batch r =
    let noted = note_routed url batch r in
    if lane == ""
    then noted
    else declare_stream_switch w lane (stamp_of join dir w lane noted.seq_alloc noted)

pub confirm_all : List (String × ℕ) → Marks → Marks
confirm_all [] m = m
confirm_all ((source, c) ∷ rest) m = confirm_all rest (raise source c m)

pub data GroupResult : Type 0 where
  group_done group_retry_later : GroupResult

on_upload_fail : Reporter → Reporter
on_upload_fail r = record r { consecutive_failures = r.consecutive_failures + 1 }

settle : List Event → Answer → Reporter → Reporter × GroupResult
unfolding confirm_all on_upload_fail is_terminal
settle batch marshal_failed r = (r, group_done)
settle batch (uploaded contiguous) r = (
  record r { consecutive_failures = 0; confirmed_seq = confirm_all contiguous r.confirmed_seq },
  group_done,
)
settle batch (upload_failed status) r =
    if is_terminal status
    then (on_upload_fail (record r { dead_letters = r.dead_letters ++ batch }), group_done)
    else (on_upload_fail r, group_retry_later)

module _ (join : String → String → String) (dir : String) (w : World) where
  unfoldable pub upload_group_to : String → List Event → Reporter → Reporter × GroupResult
  unfolding prepare lane_of_batch settle
  upload_group_to url batch r =
      let ready = prepare join dir w url (lane_of_batch batch) batch r in
      settle batch (w.answer ready.tick) (ticked ready)
