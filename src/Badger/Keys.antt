-- ===== src/Badger/Keys.antt =====
-- The key schema of storage/badger/badger.go.
pub mod Laws
use schedule.Base.{◌++◌, Text, codes}

unfoldable pub job_key : Text → Text
job_key id = codes "job/" ++ id

unfoldable pub task_key : Text → Text → Text
task_key job_id task_id = codes "job/" ++ (job_id ++ (codes "/task/" ++ task_id))

unfoldable pub occurrence_key : Text → Text → Text
occurrence_key job_id occurrence_id =
    codes "job/" ++ (job_id ++ (codes "/occurrence/" ++ occurrence_id))

unfoldable pub task_run_key : Text → Text → Text → Text
task_run_key job_id occurrence_id task_id =
    codes "job/"
    ++ (job_id
        ++ (codes "/occurrence/"
            ++ (occurrence_id ++ (codes "/task/" ++ (task_id ++ codes "/run")))))

unfoldable pub attempt_key : Text → Text → Text → Text → Text
attempt_key job_id occurrence_id task_id attempt_id =
    codes "job/"
    ++ (job_id
        ++ (codes "/occurrence/"
            ++ (occurrence_id
                ++ (codes "/task/" ++ (task_id ++ (codes "/run/attempt/" ++ attempt_id))))))

-- The key that CreateTaskRun and its companions use in place of `taskRunKey`.
unfoldable pub stored_run_key : Text → Text
stored_run_key id = codes "taskrun/" ++ id

unfoldable pub stored_attempt_key : Text → Text
stored_attempt_key id = codes "attempt/" ++ id

-- Prefixes of iterators.
unfoldable pub task_prefix : Text → Text
task_prefix job_id = codes "job/" ++ (job_id ++ codes "/task/")

unfoldable pub occurrence_prefix : Text → Text
occurrence_prefix job_id = codes "job/" ++ (job_id ++ codes "/occurrence/")
