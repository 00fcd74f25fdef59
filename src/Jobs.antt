-- ===== src/Jobs.antt =====
-- crates/mc-sandbox/src/jobs.rs and crates/mc-core/src/jobs.rs: the registry of background commands.
-- The registry is the value of the three statics, the map as a list of its entries in the order of
-- iteration. `Instant`s are seconds of a clock that the caller reads, and each signal that is sent
-- to a process group is kept in `signals`. Exit codes are natural numbers, as on Unix. No lock is
-- ever poisoned. Each function is one call that runs through by itself: the steps of `start` and
-- `finish` take their locks one after the other, and what other threads do between them is not
-- modelled.
pub mod Decoded
pub mod Output
use mobile_coder.Prelude.{
  ℕ, suc, zero, ◌+◌, ◌-◌, ◌<>◌, String, Bool, true, false, not, Option, none, some, List, [], ◌∷◌,
  ◌++◌, map, keep, any, take, length, leb, ◌==◌, if◌then◌else◌, filter_map, first?,
}
use mobile_coder.Prelude.Text.{show, lines, trim}
use mobile_coder.Jobs.Output as Buf
use mobile_coder.Jobs.Output.{Buffer}

pub data JobStatus : Type 0 where
  running : JobStatus
  exited : Option ℕ → JobStatus
  killed : JobStatus

abbrev pub is_running : JobStatus → Bool
is_running running = true
is_running _ = false

unfoldable pub describe_status : JobStatus → String
describe_status running = "running"
describe_status (exited none) = "ended by a signal"
describe_status (exited (some code)) = "exited " <> show code
describe_status killed = "killed"

pub record JobSummary : Type 0 where
  pub id : String
  pub command : String
  pub status : JobStatus
  pub age : ℕ
  pub unread : ℕ

first_line : String → String
first_line command = elim (first? (lines command)) [ none ↦ "" | some line ↦ trim line ]

unfoldable pub describe : JobSummary → String
unfolding first_line
describe s =
    s.id <> "  " <> describe_status s.status <> "  " <> show s.age <> "s  " <> first_line s.command

pub record JobRead : Type 0 where
  pub summary : JobSummary
  pub output : String
  pub dropped : ℕ

pub record Job : Type 0 where
  pub id : String
  pub command : String
  pub started : ℕ
  pub pgid : ℕ
  pub buffer : Buffer
  pub status : JobStatus
  pub finished : Option ℕ

pub record Registry : Type 0 where
  pub jobs : List Job
  pub next_id : ℕ
  -- `mc_core::jobs::RUNNING`, what the screen shows
  pub published : ℕ
  pub signals : List ℕ

abbrev pub max_finished : ℕ
max_finished = 16

unfoldable pub summary : ℕ → Job → JobSummary
summary now j = record {
  id = j.id;
  command = j.command;
  status = j.status;
  age = now - j.started;
  unread = Buf.unread j.buffer;
}

abbrev pub active : Job → Bool
active j = is_running j.status

unfoldable pub running_count : List Job → ℕ
running_count jobs = length (keep active jobs)

-- `mc_core::jobs::set_running`
unfoldable pub set_running : ℕ → Registry → Registry
set_running n r = record r { published = n }

unfoldable pub publish_count : Registry → Registry
publish_count r = set_running (running_count r.jobs) r

-- `HashMap::insert`, under the lock of the registry; the id is always a new one.
unfoldable pub register : String → ℕ → ℕ → Registry → Registry × String
register command pgid now r =
    let id = "job-" <> show r.next_id in
    let job : Job = record {
      id = id;
      command = command;
      started = now;
      pgid = pgid;
      buffer = Buf.new;
      status = running;
      finished = none;
    } in
    (record r { jobs = r.jobs ++ job ∷ []; next_id = r.next_id + 1 }, id)

unfoldable pub start : String → ℕ → ℕ → Registry → Registry × String
start command pgid now r =
    let (registered, id) = register command pgid now r in (publish_count registered, id)

unfoldable pub find : String → List Job → Option Job
find id [] = none
find id (j ∷ js) = let rest = find id js in if j.id == id then some j else rest

-- A change of one job, through its `Arc`; a job that was pruned is in the registry no more.
unfoldable pub update : String → (Job → Job) → List Job → List Job
update id f [] = []
update id f (j ∷ js) = (if j.id == id then f j else j) ∷ update id f js

-- One round of `pump`, with the text that it decoded.
unfoldable pub pump : String → String → Registry → Registry
pump id text r = record r {
  jobs = update id (λ j. record j { buffer = Buf.push text j.buffer }) r.jobs;
}

abbrev pub finished_at : Job → Option (String × ℕ)
finished_at j = elim j.finished [ none ↦ none | some at ↦ some (j.id, at) ]

-- `sort_by_key`, which is stable.
abbrev insert_by_time : String × ℕ → List (String × ℕ) → List (String × ℕ)
insert_by_time e [] = e ∷ []
insert_by_time (i, a) ((j, b) ∷ es) =
    let rest = insert_by_time (i, a) es in if leb a b then (i, a) ∷ (j, b) ∷ es else (j, b) ∷ rest

unfoldable pub sort_by_time : List (String × ℕ) → List (String × ℕ)
sort_by_time [] = []
sort_by_time (e ∷ es) = insert_by_time e (sort_by_time es)

unfoldable pub remove_all : List (String × ℕ) → List Job → List Job
remove_all [] jobs = jobs
remove_all ((id, at) ∷ es) jobs = remove_all es (keep (λ j. not (j.id == id)) jobs)

unfoldable pub prune : List Job → List Job
prune jobs =
    let finished = filter_map finished_at (keep (λ j. not (active j)) jobs) in
    if leb (length finished) max_finished
    then jobs
    else remove_all (take (length finished - max_finished) (sort_by_time finished)) jobs

-- The first outcome stands, and so does the first time.
unfoldable pub mark : JobStatus → ℕ → Job → Job
mark outcome now j = record j {
  status = if is_running j.status then outcome else j.status;
  finished = elim j.finished [ none ↦ some now | some at ↦ some at ];
}

-- What `finish` sets in the job, under the locks of the job.
unfoldable pub mark_job : String → JobStatus → ℕ → Registry → Registry
mark_job id outcome now r = record r { jobs = update id (mark outcome now) r.jobs }

unfoldable pub prune_jobs : Registry → Registry
prune_jobs r = record r { jobs = prune r.jobs }

unfoldable pub finish : String → JobStatus → ℕ → Registry → Registry
finish id outcome now r = publish_count (prune_jobs (mark_job id outcome now r))

-- `Buffer::take` on the job's buffer.
unfoldable pub read : String → ℕ → Registry → Option JobRead × Registry
read id now r = elim (find id r.jobs) [
  | none ↦ (none, r)
  | some j ↦
      let (output, buffer) = Buf.read_new j.buffer in
      let j' = record j { buffer = buffer } in
      (
        some (record { summary = summary now j'; output = output; dropped = j.buffer.dropped }),
        record r { jobs = update id (λ k. record k { buffer = buffer }) r.jobs },
      )
]

unfoldable pub kill : String → ℕ → Registry → Option JobSummary × Registry
kill id now r = elim (find id r.jobs) [
  | none ↦ (none, r)
  | some j ↦
      if active j
      then (
        some (summary now (mark killed now j)),
        finish id killed now (record r { signals = r.signals ++ j.pgid ∷ [] }),
      )
      else (some (summary now j), r)
]

abbrev insert_by_age : JobSummary → List JobSummary → List JobSummary
insert_by_age s [] = s ∷ []
insert_by_age s (t ∷ ts) =
    let rest = insert_by_age s ts in if leb t.age s.age then s ∷ t ∷ ts else t ∷ rest

sort_by_age : List JobSummary → List JobSummary
sort_by_age [] = []
sort_by_age (s ∷ ss) = insert_by_age s (sort_by_age ss)

unfoldable pub list : ℕ → Registry → List JobSummary
unfolding sort_by_age
list now r = sort_by_age (map (summary now) r.jobs)

kill_each : List JobSummary → ℕ → Registry → ℕ × Registry
kill_each [] now r = (0, r)
kill_each (s ∷ ss) now r =
    let (found, r') = kill s.id now r in
    let (n, r'') = kill_each ss now r' in (elim found [ none ↦ n | some _ ↦ n + 1 ], r'')

unfoldable pub kill_all : ℕ → Registry → ℕ × Registry
unfolding kill_each
kill_all now r = kill_each (keep (λ s. is_running s.status) (list now r)) now r
