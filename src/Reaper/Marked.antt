-- ===== src/Reaper/Marked.antt =====
-- What a reap of recovery/reaper.go does to the occurrences that it lists.
use schedule.Base.{
  ◌+◌, ◌≡◌, refl, ap, ◌⊎◌, inl, inr, some, List, [], ◌∷◌, Text, ok, err, Error, Result-cases,
  Bool-cases, text_eq, text_eq-true, text_eq_refl, subst, sym,
}
use schedule.Ticker.Window.{Time}
use schedule.Types.{failed_stale}
use schedule.Storage.{JobOccurrence, Storage}
use schedule.Ids.{Formats}
use schedule.Executor.{Env, World, ask}
use schedule.Badger.Database.{Database, DatabaseLaws, IsFaithful}
use schedule.Badger.Keys.{occurrence_key}
use schedule.Badger.Records.Stored.{IsStored, Wrote-IsStored, update_record-ok}
use schedule.Badger.Operations.{Json, badger_storage, update_job_occurrence}
use schedule.Reaper.{stale_after, reap_each, reap_stale_jobs}

-- The occurrence as the reaper writes it.
abbrev pub stale : JobOccurrence → Time → JobOccurrence
stale o now = record o { status = failed_stale; end_time = some now; updated_at = now }

-- An update that is made is there, and stays for other updates with marks.
pub record MarksStale (st : Storage) : Type 1 where
  -- an occurrence is stored as stale, with an end
  pub IsMarked : JobOccurrence → st.State → Type 0
  pub now_marked :
      (o : JobOccurrence) (now later : Time) (s t : st.State)
      → st.update_job_occurrence later (stale o now) s ≡ ok t
      → IsMarked o t
  pub still_marked :
      (o p : JobOccurrence) (now later : Time) (s t : st.State)
      → st.update_job_occurrence later (stale o now) s ≡ ok t
      → IsMarked p s
      → IsMarked p t

module _ (b : Database) (laws : DatabaseLaws b) (json : Json)
    (faithful : IsFaithful json.occurrence) where
  abbrev MarkedAt : Text → b.Db → Type 0
  MarkedAt key db =
      (x : JobOccurrence) × (t : Time) × IsStored b json.occurrence x key db
      × (x.status ≡ failed_stale)
      × (x.end_time ≡ some t)

  MarkedAt-written :
      (o : JobOccurrence) (now later : Time) (db db' : b.Db)
      → update_job_occurrence b json later (stale o now) db ≡ ok db'
      → MarkedAt (occurrence_key o.job_id o.id) db'
        × ((key : Text) → MarkedAt key db → MarkedAt key db')
  unfolding update_job_occurrence
  MarkedAt-written o now later db db' h =
      let r : JobOccurrence = record (stale o now) { updated_at = later } in
      let k = occurrence_key o.job_id o.id in
      let w = (update_record-ok b json.occurrence k _ r db db' h).1 in
      let here : MarkedAt k db' = (
        r,
        now,
        (Wrote-IsStored b json.occurrence laws faithful k k r r db db' w).1 (inl (refl, refl)),
        refl,
        refl,
      ) in
      (
        here,
        λ key (x, t, s, e, f). elim (Bool-cases (text_eq key k)) [
          | inl y ↦ subst (λ j. MarkedAt j db') (sym (text_eq-true key k y)) here
          | inr n ↦ (
            x,
            t,
            (Wrote-IsStored b json.occurrence laws faithful k key r x db db' w).1
                (inr (λ q. cc (n, ap (λ j. text_eq j k) q, text_eq_refl k), s)),
            e,
            f,
          )
        ],
      )

  pub badger_marks_stale : MarksStale (badger_storage b json)
  unfolding badger_storage
  badger_marks_stale = record {
    IsMarked = λ o db. MarkedAt (occurrence_key o.job_id o.id) db;
    now_marked = λ o now later s t h. (MarkedAt-written o now later s t h).0;
    still_marked = λ o p now later s t h. (MarkedAt-written o now later s t h).1 _;
  }

module _ (st : Storage) (marks : MarksStale st) (env : Env) (ids : Formats) where
  -- What the loop comes to from `w`, if `v` is the end of the reap: each update is made, and its mark is
  -- there at the end; or it is refused, where the loop then is.
  abbrev pub Reaped : List JobOccurrence → World st → World st → Type 0
  Reaped [] w v = v.state ≡ w.state
  Reaped (o ∷ os) w v =
      let now = env.clock w.asked in
      let update = st.update_job_occurrence (env.clock (w.asked + 1)) (stale o now) w.state in
      ((t : st.State) × (update ≡ ok t)
        × marks.IsMarked o v.state
        × Reaped os (record w { state = t; asked = w.asked + 2 }) v)
      ⊎ (((e : Error) × (update ≡ err e)) × Reaped os (record w { asked = w.asked + 2 }) v)

  reap_each_keeps :
      (p : JobOccurrence) (os : List JobOccurrence) (w : World st)
      → marks.IsMarked p w.state
      → marks.IsMarked p (reap_each st env ids os w).state
  unfolding reap_each
  reap_each_keeps p [] w h = h
  reap_each_keeps p (o ∷ os) w h =
      elim (Result-cases (
        st.update_job_occurrence (env.clock (w.asked + 1)) (stale o (env.clock w.asked)) w.state)) [
          | inl (t, q) ↦
              reap_each_keeps p os _
                (rw q (marks.still_marked o p (env.clock w.asked) _ w.state t q h))
          | inr (e, q) ↦ reap_each_keeps p os _ (rw q h)
        ]

  reap_each_marks :
      (os : List JobOccurrence) (w : World st) → Reaped os w (reap_each st env ids os w)
  unfolding reap_each
  reap_each_marks [] w = refl
  reap_each_marks (o ∷ os) w =
      let now = env.clock w.asked in
      elim (Result-cases
        (st.update_job_occurrence (env.clock (w.asked + 1)) (stale o now) w.state)) [
          | inl (t, q) ↦
              let u = record w { state = t; asked = w.asked + 2 } in
              inl (
                t,
                q,
                rw (q, reap_each) (reap_each_keeps o os u (marks.now_marked o now _ w.state t q)),
                rw (q, reap_each) (reap_each_marks os u),
              )
          | inr (e, q) ↦
              inr
                ((e, q), rw (q, reap_each) (reap_each_marks os (record w { asked = w.asked + 2 })))
        ]

  -- The loop over the occurrences that are listed; or nothing is listed and nothing written.
  abbrev pub EndsReaped : World st → World st → Type 0
  EndsReaped w v =
      ((os : List JobOccurrence) × (st.list_stale_occurrences (env.clock w.asked) stale_after
            w.state
          ≡ ok os)
        × Reaped os (ask st env ids w) v)
      ⊎ (((e : Error) × (st.list_stale_occurrences (env.clock w.asked) stale_after w.state ≡ err e))
          × (v.state ≡ w.state))

  -- If the stale occurrences can be listed, each of them is updated to Failed_Stale with an end time, one after
  -- another, and has that status and an end after the reap, unless the storage, as it was when the
  -- loop came to the occurrence, refused the update; a refusal writes nothing and stops nothing. If they
  -- cannot be listed, nothing is written.
  pub reap_stale_jobs_marks : (w : World st) → EndsReaped w (reap_stale_jobs st env ids w)
  unfolding reap_stale_jobs ask
  reap_stale_jobs_marks w =
      elim (Result-cases (st.list_stale_occurrences (env.clock w.asked) stale_after w.state)) [
        | inl (os, q) ↦ inl (os, q, rw (q, reap_stale_jobs) (reap_each_marks os _))
        | inr (e, q) ↦ inr ((e, q), rw (q, reap_stale_jobs) refl)
      ]
