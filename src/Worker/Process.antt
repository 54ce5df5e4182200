-- ===== src/Worker/Process.antt =====
-- The worker as a process: its loop, the tasks it spawns and its shutdown
-- (services/worker/src/main.rs), against the consumer group, which it shares with other workers
-- that run the same program. Every interleaving of the tasks, of the shutdown signal and of the
-- other workers is a sequence of steps. `tick` of main.rs is `fetch` and then the steps that
-- spawn.
pub mod Permits
pub mod Delivered
pub mod Drained
use pqc_sec_inspection_cours.Prelude.{
  ℕ, suc, ◌≡◌, Bool, not, ◌&&◌, List, [], ◌∷◌, ◌++◌, filter, is_empty, All, Some, Text, text_eq,
  if◌then◌else◌,
}
use pqc_sec_inspection_cours.Domain.Jobs.{stream_probe, stream_kem}
use pqc_sec_inspection_cours.Worker.World.{Action, pure, ◌>>=◌}
use pqc_sec_inspection_cours.Worker.Stream.{Delivery, Redis, read, autoclaim}

module _ {Value : Type 0} (redis : Redis Value) (name : Text) (claim_stale_ms : ℕ) where
  unfoldable pub claim_from :
      {Json : Type 0} → List Delivery → List Text → Action Json (List Delivery)
  claim_from deliveries [] = pure deliveries
  claim_from deliveries (stream ∷ streams) = do
    more ← autoclaim redis stream name claim_stale_ms
    claim_from (deliveries ++ more) streams

  -- What a tick has to do: new entries, or else those that a dead worker left pending.
  unfoldable pub fetch : {Json : Type 0} → Action Json (List Delivery)
  fetch = do
    deliveries ← read redis (stream_probe ∷ stream_kem ∷ []) name 2_000 16
    if is_empty deliveries then claim_from [] (stream_probe ∷ stream_kem ∷ []) else pure deliveries

pub data Phase : Type 0 where
  serving draining exited dead : Phase

pub record Process : Type 0 where
  pub phase : Phase
  pub permits : ℕ  -- of the semaphore
  pub queue : List Delivery  -- of the tick in hand, waiting for a permit
  pub running : List Delivery  -- spawned
  pub handled : List Delivery  -- spawned and handled, not yet acknowledged
  pub pending : List Delivery  -- of the group: handed out and not acknowledged
  pub taken : List Delivery  -- what this worker was handed so far
  pub finished : List Delivery  -- what a worker of the group has handled so far

-- Two deliveries of one entry.
abbrev pub is_entry : Delivery → Delivery → Bool
is_entry d e = text_eq d.stream e.stream && text_eq d.id e.id

abbrev pub without : Delivery → List Delivery → List Delivery
without d entries = filter (λ e. not (is_entry d e)) entries

abbrev pub start : ℕ → (pending finished : List Delivery) → Process
start concurrency pending finished = record {
  phase = Phase.serving;
  permits = concurrency;
  queue = [];
  running = [];
  handled = [];
  pending = pending;
  taken = [];
  finished = finished;
}

-- New entries for the tick; with an answer that is lost they are pending all the same. `answered`
-- are those that `collect` keeps: an entry without a `job` is handed out, and stays pending, but is
-- no delivery. It stands here with an empty payload.
abbrev pub take_new : (answered new : List Delivery) → Process → Process
take_new answered new s = record s {
  queue = answered;
  pending = s.pending ++ new;
  taken = s.taken ++ new;
}

-- Entries claimed for the tick; those of a tick that fails are not kept.
abbrev pub take_over : (answered old : List Delivery) → Process → Process
take_over answered old s = record s { queue = answered; taken = s.taken ++ old }

-- `acquire_owned` and `tokio::spawn`
abbrev pub spawn : Delivery → (rest : List Delivery) → (permits : ℕ) → Process → Process
spawn d rest permits s = record s { permits = permits; queue = rest; running = d ∷ s.running }

-- A task's job ends, with success or with an error.
abbrev pub end_job : Delivery → (others : List Delivery) → Process → Process
end_job d others s = record s {
  running = others;
  handled = d ∷ s.handled;
  finished = s.finished ++ d ∷ [];
}

-- A task acknowledges, or fails to, and releases its permit.
abbrev pub end_task : (others pending : List Delivery) → Process → Process
end_task others pending s = record s {
  permits = suc s.permits;
  handled = others;
  pending = pending;
}

-- The signal drops the tick in hand.
abbrev pub shut_down : Process → Process
shut_down s = record s { phase = Phase.draining; queue = [] }

abbrev pub exit : Process → Process
exit s = record s { phase = Phase.exited }

abbrev pub die : Process → Process
die s = record s { phase = Phase.dead; queue = []; running = []; handled = [] }

pub data Step (concurrency : ℕ) (s : Process) : Process → Type 0 where
  -- `has_job` tells the entries that carry a `job`, which need not be all.
  reads :
      (has_job : Delivery → Bool) (new : List Delivery)
      → s.phase ≡ Phase.serving
      → s.queue ≡ []
      → Step concurrency s (take_new (filter has_job new) new s)
  read_lost :
      (new : List Delivery)
      → s.phase ≡ Phase.serving
      → s.queue ≡ []
      → Step concurrency s (take_new [] new s)
  claims :
      (has_job : Delivery → Bool) (old : List Delivery)
      → s.phase ≡ Phase.serving
      → s.queue ≡ []
      → All (λ d. Some (λ p. p ≡ d) s.pending) old
      → Step concurrency s (take_over (filter has_job old) old s)
  claim_lost :
      (old : List Delivery)
      → s.phase ≡ Phase.serving
      → s.queue ≡ []
      → All (λ d. Some (λ p. p ≡ d) s.pending) old
      → Step concurrency s (take_over [] old s)
  spawns :
      (d : Delivery) (rest : List Delivery) (permits : ℕ)
      → s.phase ≡ Phase.serving
      → s.queue ≡ d ∷ rest
      → s.permits ≡ suc permits
      → Step concurrency s (spawn d rest permits s)
  job_ends :
      (before : List Delivery) (d : Delivery) (after : List Delivery)
      → s.running ≡ before ++ d ∷ after
      → Step concurrency s (end_job d (before ++ after) s)
  acks :
      (before : List Delivery) (d : Delivery) (after : List Delivery)
      → s.handled ≡ before ++ d ∷ after
      → Step concurrency s (end_task (before ++ after) (without d s.pending) s)
  ack_fails :
      (before : List Delivery) (d : Delivery) (after : List Delivery)
      → s.handled ≡ before ++ d ∷ after
      → Step concurrency s (end_task (before ++ after) s.pending s)
  shuts_down : s.phase ≡ Phase.serving → Step concurrency s (shut_down s)
  -- `acquire_many`
  exits : s.phase ≡ Phase.draining → s.permits ≡ concurrency → Step concurrency s (exit s)
  dies : Step concurrency s (die s)
  -- Another worker is handed an entry, or acknowledges one that it has handled.
  other_takes : (new : List Delivery) → Step concurrency s (record s { pending = s.pending ++ new })
  other_acks :
      (d : Delivery)
      → Step concurrency s
          (record s { pending = without d s.pending; finished = s.finished ++ d ∷ [] })

pub data Runs (concurrency : ℕ) (s : Process) : Process → Type 0 where
  begin : Runs concurrency s s
  next : {t u : Process} → Runs concurrency s t → Step concurrency t u → Runs concurrency s u

-- From the start of the worker, with what is pending and handled in the group by then.
abbrev pub Reach : ℕ → (pending finished : List Delivery) → Process → Type 0
Reach concurrency pending finished s = Runs concurrency (start concurrency pending finished) s
