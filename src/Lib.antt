-- ===== src/Lib.antt =====
-- A model of aikey-proxy, the proxy that routes requests for language models to upstream accounts,
-- meters them and reports their usage.
--
-- The parts and how they interact. A request names a virtual key. The candidate chain picks the
-- upstreams that may serve it and their order, with the binding cooldowns and the stickiness of a
-- conversation. A hop that is an account pool picks one account, which skips the accounts that the
-- pool's cooldown store avoids; each transport path has a circuit breaker. Before a request the
-- quota enforcer checks the limits of its seat, and after it accrues what was used. Each usage
-- event gets a sequence number that is never used twice in its lane, and goes to the write-ahead
-- log, which the reporter drains to the collectors; a reconciliation accounts for the numbers that
-- a collector misses. A chain is walked hop by hop until one serves, and on the way back a stream's
-- model name is restored.
--
-- Which file models what, by the paths of the repository:
-- - Events/StateFile and Events/SeqAlloc: internal/events/seqalloc.go (NewSeqAllocator, Next,
--   Allocated, Close, loadSeqState, writeSeqStateAtomic). An operation takes the files and the
--   faults of the operating system and returns its result, the allocator and the files.
-- - Events/Lanes: seqalloc_lane.go (For, Next, Allocated, Close, PendingFloor, ClearPendingFloor)
--   and LaneOfOrg of lane.go, over the allocator above.
-- - Events/Wal: the entries of wal.go and the reads of its files. Events/Reporter: the state of
--   reporter.go and uploadGroupTo with what it calls; below it Drain (uploadPending,
--   markProcessed, pruneConfirmedWAL and the loop of drainOnce), Stall (maybeAutoReconcile of
--   reconcile.go), Pass (drainOnce) and Reconcile (reconcileAgainst, resendWALSeqs, walSeqSet).
--   What the reporter does not decide (clock, context, collectors, walk order of maps) is a
--   `World`, read at a tick that every reading moves on.
-- - Events/DeadLetter: dead_letter.go (write, counts, ReplayDeadLetter) over the configuration of
--   the reporter. Events/Retention: RunRetentionSweep of retention.go over lists of files.
-- - Quota/Counter, Snapshot, Buckets and Enforcer: internal/quota (counter.go, local_usage.go,
--   snapshot.go, pricer.go, period.go, enforce.go). Amounts are float64 in the source and are
--   abstract in Quota/Amount: its laws hold with rounding, but for the exact sums and differences
--   of whole numbers below 2 ^ 53, such as token counts.
-- - Vkeys/Material and Vkeys/Pick: internal/vkeys/routed_pick.go, over the types of
--   group_runtime.go.
-- - Proxy/PathHealth: internal/proxy/path_health.go.
-- - Proxy/PoolCooldown: internal/proxy/oauth_pool_cooldown.go, with the sample type of
--   signal_report.go.
-- - Proxy/CooldownDecision: cooldownDecision of the same file and failoverEligibleResponse of
--   group_failover.go. Proxy/BindingCooldown: binding_cooldown.go.
-- - Proxy/Chain: candidate_chain.go, pin_scope.go, orderCandidates of chain_serve.go, and
--   chain_activity.go. Proxy/Chain/Serve: serveManagedChain of chain_serve.go.
-- - Proxy/SseModel: sse_model_rewrite.go, with Read over the chunks of the upstream.
-- - Prelude: shared helpers. The modules named Examples run the definitions on concrete inputs.
--
-- Conventions. Times and durations are nanoseconds as natural numbers, so a clock before 1970 is
-- not modelled and a difference stops at 0; the text of a definition says where the source would
-- see a negative one. An int64 that may wrap is its bit pattern below 2 ^ 64. A Go map is the
-- function of its lookups; a walk whose order can matter takes the keys in that order. A lock is
-- held for a whole operation of the source, so an operation is one step. Loops are structural
-- recursion, but for two: the lines of a stream's buffer take its length as fuel, and a theorem says
-- that no complete line is left then; and a reconciliation has the source's own bound of 100
-- windows. Code outside the repository is a parameter: the ranking of seatassign, the calendar
-- formats of package time, json.Unmarshal and strings.EqualFold; of the
-- ranking it is assumed that it loses no account. So are gjson and sjson, filepath.Join and an
-- attempt of a hop. The sequence numbers of the reporter are not negative.
--
-- Not modelled: appending to the log, HTTP serving and forwarding, header and JSON parsing, SQL
-- and the vault, logs and metrics, the writer thread of the cooldown file, tombstones of failed
-- tokens, the translators between protocols, the supervisor, configuration and start-up.
pub mod Prelude
pub mod Events
pub mod Quota
pub mod Vkeys
pub mod Proxy
