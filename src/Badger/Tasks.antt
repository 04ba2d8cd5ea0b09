-- ===== src/Badger/Tasks.antt =====
-- GetTask and DeleteTask of storage/badger/badger.go, which look for a key that ends with the
-- identifier of a task.
use schedule.Base.{
  ◌≡◌, refl, sym, ◌∙◌, ap, ◌⊎◌, ⊎-elim, inl, inr, true, some, Text, codes, text_eq_refl, ok, err,
  Error, arith,
}
use schedule.Storage.{Task}
use schedule.Badger.Database.{found, Database, DatabaseLaws, IsFaithful}
use schedule.Badger.Keys.{task_key}
use schedule.Badger.Keys.Laws.{task_key-job, task_key-contains, task_key-suffix}
use schedule.Badger.Records.Stored.{Wrote, create_record-ok}
use schedule.Badger.Records.Finding.{IsOnly, IsUnread, find_record-IsOnly}
use schedule.Badger.Operations.{Json, is_task_key, create_task, find_task, get_task, delete_task}

module _ (b : Database) (laws : DatabaseLaws b) (json : Json)
    (faithful : IsFaithful json.task) where
  -- No other key of a task ends with the identifier.
  abbrev pub IsAlone : Task → b.Db → Type 0
  IsAlone task db =
      (k : Text) (v : Text)
      → b.get k db ≡ found v
      → is_task_key task.id k ≡ true
      → k ≡ task_key task.job_id task.id

  found_same : (v u : Text) → found v ≡ found u → json.task.unmarshal v ≡ json.task.unmarshal u
  found_same v u h = cc

  own_key : (j t : Text) → is_task_key t (task_key j t) ≡ true
  own_key j t = ground (arith, task_key-contains j t, task_key-suffix j t)

  get_created :
      (task : Task) (db db' : b.Db)
      → Wrote b json.task (task_key task.job_id task.id) task db db'
      → (v : Text) × (b.get (task_key task.job_id task.id) db' ≡ found v)
        × (json.task.unmarshal v ≡ some task)
  get_created task db db' w = (
    w.written,
    laws.get-set _ w.written _ db db' w.sets
        ∙ rw (text_eq_refl (task_key task.job_id task.id)) refl,
    faithful task w.written w.marshals,
  )

  created-IsOnly :
      (task : Task) (db db' : b.Db)
      → Wrote b json.task (task_key task.job_id task.id) task db db'
      → IsAlone task db'
      → IsOnly json.task
          (is_task_key task.id)
          (task_key task.job_id task.id)
          task
          (b.iterate (codes "job/") db')
  created-IsOnly task db db' w alone i m t =
      let (p, (v, g, same)) = laws.get-iterate (codes "job/") db' i m in
      let k = alone i.key v g t in
      let (u, h, d) = get_created task db db' w in
      (
        k,
        λ x q. cc (
          d,
          ap json.task.unmarshal (same x q),
          found_same v u (sym g ∙ ap (λ j. b.get j db') k ∙ h),
        ),
      )

  -- The task is found and would be deleted under its own key; or an item cannot be read, which ends both.
  abbrev pub EndsFound : Task → b.Db → Type 0
  EndsFound task db =
      ((get_task b json task.id db ≡ ok (some task))
        × (delete_task b json task.id db ≡ b.delete (task_key task.job_id task.id) db))
      ⊎ ((e : Error) × IsUnread json.task (is_task_key task.id) (task_key task.job_id task.id) task
            (b.iterate (codes "job/") db) e
          × (get_task b json task.id db ≡ err e)
          × (delete_task b json task.id db ≡ err e))

  -- A task that was created is read back by its identifier alone, and DeleteTask deletes what was
  -- created, if no other key of a task ends with the identifier; unless an item that is passed cannot be
  -- read, whose error both return.
  pub get_task-create_task :
      (task : Task) (db db' : b.Db)
      → create_task b json task db ≡ ok db'
      → IsAlone task db'
      → EndsFound task db'
  unfolding create_task get_task delete_task find_task
  get_task-create_task task db db' h alone =
      let w = (create_record-ok b json.task _ _ task db db' h).1 in
      let key = task_key task.job_id task.id in
      let (v, g, _) = get_created task db db' w in
      ⊎-elim
        (find_record-IsOnly json.task (is_task_key task.id) key task (b.iterate (codes "job/") db')
          (created-IsOnly task db db' w alone) (own_key task.job_id task.id)
          (laws.iterate-get (codes "job/") key v db' g (task_key-job task.job_id task.id)))
        (λ q. inl (rw (q, get_task, find_task) refl, rw (q, delete_task, get_task, find_task) refl))
        (λ (e, u, q).
          inr
            (e, u, rw (q, get_task, find_task) refl, rw (q, delete_task, get_task, find_task) refl))
