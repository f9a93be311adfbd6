-- ===== src/Session/Pipeline.antt =====
-- src/tracer/trace_session.cpp: the queue between the event loop and the writer's thread
-- (`enqueue`, `writer_loop`, `finalize`), as steps of two threads. Each step is a section that the
-- mutex guards, up to its end or to its `pthread_cond_wait`, or one event of the batch that the writer
-- holds. A thread that waits takes no step until it is woken: by a signal, a broadcast, or for no reason,
-- as `pthread_cond_wait` may return without one.
use bdtrace.Common.{
  ◌+◌, if◌then◌else◌, ℕ, ◌≤◌, ◌<◌, ◌≡◌, ◌≢◌, refl, sym, ap, ◌∙◌, Bool, true, false, List, [], ◌∷◌,
  ◌++◌, arith, length, length-append,
}
use bdtrace.Session.{QueuedEvent}
use mathlib.Core.List.{append-nil, append_assoc}

abbrev pub max_queue_events : ℕ
max_queue_events = 200000

-- `batch` is the deque `local` of the writer. `produced` and `applied` are the histories of the
-- calls of `enqueue` and of `apply_event`; `stopped` says that the writer's thread has ended. The writer
-- waits on `cond_has_events_`, the thread that enqueues on `cond_has_space_`.
pub record Pipe : Type 0 where
  pub queue : List QueuedEvent
  pub batch : List QueuedEvent
  pub applied : List QueuedEvent
  pub produced : List QueuedEvent
  pub stop_requested : Bool
  pub stopped : Bool
  pub writer_waits : Bool
  pub producer_waits : Bool

abbrev pub new_pipe : Pipe
new_pipe = record {
  queue = [];
  batch = [];
  applied = [];
  produced = [];
  stop_requested = false;
  stopped = false;
  writer_waits = false;
  producer_waits = false;
}

pub data Step : Pipe → Pipe → Type 0 where
  -- `enqueue`, once there is space, with its signal; the thread that enqueues is the one that stops,
  -- later.
  enqueue :
      (p : Pipe) (ev : QueuedEvent)
      → p.producer_waits ≡ false
      → p.stop_requested ≡ false
      → length p.queue < max_queue_events
      → Step p (record p {
        queue = p.queue ++ ev ∷ [];
        produced = p.produced ++ ev ∷ [];
        writer_waits = false;
      })
  -- The wait of `enqueue`.
  wait_space :
      (p : Pipe)
      → p.producer_waits ≡ false
      → p.stop_requested ≡ false
      → max_queue_events ≤ length p.queue
      → Step p (record p { producer_waits = true })
  -- The wait at the top of the writer's loop, where `local` is empty.
  wait_events :
      (p : Pipe)
      → p.writer_waits ≡ false
      → p.stopped ≡ false
      → p.batch ≡ []
      → p.queue ≡ []
      → p.stop_requested ≡ false
      → Step p (record p { writer_waits = true })
  -- `local.swap(queue_)` there, with its broadcast.
  swap :
      (p : Pipe)
      → p.writer_waits ≡ false
      → p.stopped ≡ false
      → p.batch ≡ []
      → p.queue ≢ []
      → Step p (record p { queue = []; batch = p.queue; producer_waits = false })
  apply :
      (p : Pipe) (ev : QueuedEvent) (rest : List QueuedEvent)
      → p.writer_waits ≡ false
      → p.stopped ≡ false
      → p.batch ≡ ev ∷ rest
      → Step p (record p { batch = rest; applied = p.applied ++ ev ∷ [] })
  -- `stop_requested_ = true` in `finalize`, with its broadcasts; it is called once.
  request_stop :
      (p : Pipe)
      → p.producer_waits ≡ false
      → p.stop_requested ≡ false
      → Step p (record p { stop_requested = true; writer_waits = false; producer_waits = false })
  -- The `break` of the writer's loop.
  leave :
      (p : Pipe)
      → p.writer_waits ≡ false
      → p.stopped ≡ false
      → p.batch ≡ []
      → p.queue ≡ []
      → p.stop_requested ≡ true
      → Step p (record p { stopped = true })
  -- A wait that returns for no reason.
  wake_writer : (p : Pipe) → p.writer_waits ≡ true → Step p (record p { writer_waits = false })
  wake_producer :
      (p : Pipe) → p.producer_waits ≡ true → Step p (record p { producer_waits = false })

pub data Steps (p : Pipe) : Pipe → Type 0 where
  here : Steps p p
  next : {q r : Pipe} → Steps p q → Step q r → Steps p r

pub record Inv (p : Pipe) : Type 0 where
  pub order : p.applied ++ (p.batch ++ p.queue) ≡ p.produced
  pub bounded : length p.queue ≤ max_queue_events
  pub ended : p.stopped ≡ true → (p.batch ≡ []) × (p.queue ≡ []) × (p.stop_requested ≡ true)
  pub awake : p.stop_requested ≡ true → (p.writer_waits ≡ false) × (p.producer_waits ≡ false)

Inv-new : Inv new_pipe
Inv-new = record {
  order = refl;
  bounded = omega arith;
  ended = λ e. absurd (cc);
  awake = λ e. absurd (cc);
}

Step-Inv : {p q : Pipe} → Step p q → Inv p → Inv q
Step-Inv (enqueue p ev idle no_stop space) h = record {
  order =
      ap (λ xs. p.applied ++ xs) (sym (append_assoc p.batch p.queue (ev ∷ [])))
      ∙ sym (append_assoc p.applied (p.batch ++ p.queue) (ev ∷ []))
      ∙ ap (λ xs. xs ++ ev ∷ []) h.order;
  bounded = omega (arith, length-append p.queue (ev ∷ []));
  ended = λ e. ground (arith, h.ended e);
  awake = λ e. (refl, idle);
}
Step-Inv (wait_space p idle no_stop full) h = record {
  order = h.order;
  bounded = h.bounded;
  ended = h.ended;
  awake = λ e. ground (arith, e, no_stop);
}
Step-Inv (wait_events p up run empty none_left no_stop) h = record {
  order = h.order;
  bounded = h.bounded;
  ended = h.ended;
  awake = λ e. ground (arith, e, no_stop);
}
Step-Inv (swap p up run empty some_left) h = record {
  order = ap (λ xs. p.applied ++ xs) (append-nil p.queue) ∙ rw empty at h.order;
  bounded = omega arith;
  ended = λ e. ground (arith, h.ended e);
  awake = λ e. (up, refl);
}
Step-Inv (apply p ev rest up run e) h = record {
  order = append_assoc p.applied (ev ∷ []) (rest ++ p.queue) ∙ rw e at h.order;
  bounded = h.bounded;
  ended = λ s. ground (arith, h.ended s);
  awake = h.awake;
}
Step-Inv (request_stop p idle no_stop) h = record {
  order = h.order;
  bounded = h.bounded;
  ended = λ s. ((h.ended s).0, (h.ended s).1, refl);
  awake = λ e. (refl, refl);
}
Step-Inv (leave p up run empty drained stop) h = record {
  order = h.order;
  bounded = h.bounded;
  ended = λ _. (empty, drained, stop);
  awake = h.awake;
}
Step-Inv (wake_writer p asleep) h = record {
  order = h.order;
  bounded = h.bounded;
  ended = h.ended;
  awake = λ e. (refl, (h.awake e).1);
}
Step-Inv (wake_producer p asleep) h = record {
  order = h.order;
  bounded = h.bounded;
  ended = h.ended;
  awake = λ e. ((h.awake e).0, refl);
}

Steps-Inv : {p q : Pipe} → Inv p → Steps p q → Inv q
Steps-Inv h here = h
Steps-Inv h (next r st) = Step-Inv st (Steps-Inv h r)

nothing_left : (p : Pipe) → p.batch ≡ [] → p.queue ≡ [] → p.batch ++ p.queue ≡ []
nothing_left p e f = rw (e, f)

all_applied : (p : Pipe) → Inv p → p.batch ≡ [] → p.queue ≡ [] → p.applied ≡ p.produced
all_applied p h e f =
    sym (append-nil p.applied) ∙ ap (λ xs. p.applied ++ xs) (sym (nothing_left p e f)) ∙ h.order

-- In every state that the two threads reach the queue is within its bound, and what was applied, the
-- writer's batch and the queue are together what was enqueued, in its order; and once the writer has
-- left its loop, everything that was enqueued was applied, in its order.
pub pipeline_in_order :
    (p : Pipe)
    → Steps new_pipe p
    → (length p.queue ≤ max_queue_events)
      × (p.applied ++ (p.batch ++ p.queue) ≡ p.produced)
      × (p.stopped ≡ true → p.applied ≡ p.produced)
pipeline_in_order p r =
    let h = Steps-Inv Inv-new r in
    (h.bounded, h.order, λ e. all_applied p h (h.ended e).0 (h.ended e).1)

-- Whatever steps the threads take, the writer ends, with everything applied: it has ended, or some
-- thread can take a step and after each step it still ends.
pub data Ends (all : List QueuedEvent) : Pipe → Type 0 where
  ended : {p : Pipe} → p.stopped ≡ true → p.applied ≡ all → Ends all p
  going : {p : Pipe} (q : Pipe) → Step p q → ((r : Pipe) → Step p r → Ends all r) → Ends all p

-- What the writer has left to do.
abbrev work : Pipe → ℕ
work p = length p.queue + length p.queue + length p.batch + (if p.stopped then 0 else 1)

-- A step from a state in which a stop was requested.
record Closer (p q : Pipe) : Type 0 where
  nearer : work q < work p
  still : q.stop_requested ≡ true
  same : q.produced ≡ p.produced
