-- ===== src/Scheduler/Cluster.antt =====
-- Several schedulers of scheduler/scheduler.go over one storage: their ticks, their recoveries, the
-- work of their pools and their reapers interleave in any order.
use schedule.Base.{
  ℕ, ◌≡◌, refl, ◌⊎◌, sym, ap, ◌∙◌, subst, Option, none, some, some-injective, Option-cases, inl,
  inr, List, [], ◌∷◌, ◌++◌, Text, length, drop, drop-append, All, All-append, append-nil, ◌==◌,
  if◌then◌else◌,
}
use schedule.Ticker.Window.{Time}
use schedule.Types.{JobConfig, JobOccurrence}
use schedule.Storage.{Storage}
use schedule.Ids.{Formats}
use schedule.Job.{Job}
use schedule.Executor.{Env}
use schedule.Dispatch.{Node, work}
use schedule.Dispatch.Creates.{CreatesOnce, Distinct, All-map, Distinct-append}
use schedule.Dispatch.Once.{Extends, Ends-Extends, work-Extends}
use schedule.Recovery.{apply_strategy}
use schedule.Reaper.{reap_stale_jobs, reap_stale_jobs_kept}
use schedule.Recovery.Once.{apply_strategy-Ends}
use schedule.Scheduler.{handle_job_trigger}
use schedule.Scheduler.Trigger.{handle_job_trigger-Ends}

pub data Event : Type 0 where
  -- the ticker of a job is due, a recovery with the missed times, a worker takes a task, the reaper's
  -- ticker is due
  tick : Job → Time → Event
  recover : Job → List Time → Event
  take_task : Event
  reap : Event

pub record Cluster (st : Storage) : Type 0 where
  pub state : st.State
  pub node : ℕ → Node st
  -- every occurrence that a node has submitted, in order
  pub history : List JobOccurrence

module _ (st : Storage) (env : Env) (ids : Formats) (marshal : JobConfig → Option Text)
    (names : ℕ → Text) where
  unfoldable pub act : Text → Event → Node st → Option (Node st)
  act node_id (tick job t) n = handle_job_trigger st env ids marshal node_id job t n
  act node_id (recover job ts) n = apply_strategy st env ids job ts n
  act node_id take_task n = work st env ids n
  act node_id reap n = some (record n { world = reap_stale_jobs st env ids n.world })

  -- A node as it finds the shared state.
  unfoldable pub at_state : st.State → Node st → Node st
  at_state s n = record n { world = record n.world { state = s } }

  unfoldable pub advance : ℕ → Event → Cluster st → Option (Cluster st)
  unfolding act at_state
  advance k e c =
      let n = at_state c.state (c.node k) in
      elim (act (names k) e n) [
        | none ↦ none
        | some m ↦ some (record {
          state = m.world.state;
          node = λ i. if i == k then m else c.node i;
          history = c.history ++ drop (length n.submitted) m.submitted;
        })
      ]

  unfoldable pub run_cluster : List (ℕ × Event) → Cluster st → Option (Cluster st)
  run_cluster [] c = some c
  run_cluster ((k, e) ∷ es) c = elim (advance k e c) [ none ↦ none | some d ↦ run_cluster es d ]

  module _ (once : CreatesOnce st) where
    -- No occurrence stands twice in the history, and all that stand in it are stored.
    pub record IsOnce (c : Cluster st) : Type 0 where
      pub distinct : Distinct c.history
      pub stored : All (λ o. once.Stored o.job_id o.id c.state) c.history

    act-Extends :
        (node_id : Text) (e : Event) (n m : Node st)
        → act node_id e n ≡ some m
        → Extends st once n m
    unfolding act
    act-Extends node_id (tick job t) n m h =
        Ends-Extends st once n m _ (handle_job_trigger-Ends st env ids marshal once node_id job t n)
          h
    act-Extends node_id (recover job ts) n m h =
        Ends-Extends st once n m _ (apply_strategy-Ends st once env ids job ts n) h
    act-Extends node_id take_task n m h = work-Extends st once env ids n m h
    act-Extends node_id reap n m h = subst (Extends st once n) (some-injective _ _ h) (record {
      new = [];
      grows = sym (append-nil n.submitted);
      distinct = tt;
      fresh = tt;
      stored = tt;
      kept = λ j i. reap_stale_jobs_kept st env ids (once.Stored j i) (once.keeps j i) n.world;
    })

    grown_IsOnce :
        (c : Cluster st) (n m : Node st) (d : Cluster st)
        → IsOnce c
        → n.world.state ≡ c.state
        → Extends st once n m
        → d.history ≡ c.history ++ drop (length n.submitted) m.submitted
        → d.state ≡ m.world.state
        → IsOnce d
    grown_IsOnce c n m d g s x h e =
        let In = λ (t : st.State) (o : JobOccurrence). once.Stored o.job_id o.id t in
        let new : drop (length n.submitted) m.submitted ≡ x.new =
          ap (drop (length n.submitted)) x.grows ∙ drop-append n.submitted x.new in
        let grown : d.history ≡ c.history ++ x.new = h ∙ ap (λ l. c.history ++ l) new in
        let before : All (In n.world.state) c.history =
          subst (λ t. All (In t) c.history) (sym s) g.stored in
        record {
          distinct = subst Distinct (sym grown) (
              Distinct-append (In n.world.state) c.history x.new
                (λ o p (j, i) h.
                  subst (λ y. once.Stored y p.id n.world.state) (sym j)
                    (subst (λ y. once.Stored o.job_id y n.world.state) (sym i) h))
                g.distinct x.distinct before x.fresh);
          stored =
              subst (λ t. All (In t) d.history) (sym e)
                (subst (All (In m.world.state)) (sym grown) (
                  All-append _ c.history x.new
                    (All-map _ _ c.history (λ o h. x.kept o.job_id o.id h) before) x.stored));
        }

    advance-IsOnce :
        (k : ℕ) (e : Event) (c d : Cluster st) → IsOnce c → advance k e c ≡ some d → IsOnce d
    unfolding advance at_state
    advance-IsOnce k e c d g h =
        let n = at_state c.state (c.node k) in
        elim (Option-cases (act (names k) e n)) [
          | inl q ↦ absurd (cc (rw (q, advance) at h))
          | inr (m, q) ↦
              let same = some-injective _ _ (rw (q, advance) at h) in
              grown_IsOnce c n m d g refl (act-Extends (names k) e n m q)
                (sym (ap (λ (d : Cluster st). d.history) same))
                (sym (ap (λ (d : Cluster st). d.state) same))
        ]

    -- A run in which a node panics, or a cluster at its end in which nothing was submitted twice.
    abbrev pub EndsOnce : Option (Cluster st) → Type 0
    EndsOnce result = (result ≡ none) ⊎ ((d : Cluster st) × (result ≡ some d) × IsOnce d)

    -- Over a storage that creates an occurrence once, whatever the ticks, the recoveries, the
    -- workers and the reapers of several schedulers do, in any order, no occurrence is submitted twice, by one of them
    -- or by two, and all that are submitted are stored; unless one of them panics, when the run ends.
    pub run_cluster-IsOnce :
        (es : List (ℕ × Event)) (c : Cluster st) → IsOnce c → EndsOnce (run_cluster es c)
    unfolding run_cluster
    run_cluster-IsOnce [] c g = inr (c, refl, g)
    run_cluster-IsOnce ((k, e) ∷ es) c g = elim (Option-cases (advance k e c)) [
      | inl q ↦ rw (q, run_cluster) (inl refl)
      | inr (b, q) ↦ rw (q, run_cluster) (run_cluster-IsOnce es b (advance-IsOnce k e c b g q))
    ]
