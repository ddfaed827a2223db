-- ===== src/Schedules/Visibility.antt =====
-- A job is read and changed from its own workspace, owner and conversation alone.
use open_instinct.Base.{
  ℕ, ◌≡◌, ◌≢◌, ◌&&◌, inl, inr, not, true, false, Option, none, some, List, [], ◌∷◌, text_eq→eq,
  arith, All, All-mono, All-of, All-append, All-select, All-order_by, select, find_first-none,
  Bool-cases, is_null, ◌==◌, &&-left, &&-right,
}
use mathlib.Core.Option.{get_or}
use mathlib.Core.Path.{subst}
use open_instinct.Schedules.Platform.{Platform}
use open_instinct.Schedules.Rows.{
  Job, Run, Db, Channel, >>=-ok, ok-injective, ok, same_channel, deleted,
}
use open_instinct.Schedules.Records.{
  AccessScope, Conversation, UpdateScheduledAgentJob, parse_job, parse_run,
}
use open_instinct.Schedules.Jobs.{
  is_visible, ListedJob, by_next_run, with_latest, listed, each_listed, list_scheduled_agent_jobs,
  update_scheduled_agent_job,
}

-- The job belongs to the user, in the workspace and the conversation, and is not deleted.
pub record IsOwn (scope : AccessScope) (conversation : Conversation) (job : Job) : Type 0 where
  pub workspace : job.workspace_id ≡ scope.workspace_id
  pub user : job.created_by_user_id ≡ scope.user_id
  pub channel : job.conversation_channel ≡ conversation.conversation_channel
  pub conversation_id : job.conversation_id ≡ conversation.conversation_id
  pub present : job.status ≢ deleted

same_channel→eq : (a b : Channel) → same_channel a b ≡ true → a ≡ b
unfolding same_channel
same_channel→eq a b h = ground arith

is_visible-IsOwn :
    (scope : AccessScope) (conversation : Conversation) (job : Job)
    → is_visible scope conversation job ≡ true
    → IsOwn scope conversation job
unfolding is_visible
is_visible-IsOwn scope conversation job h = record {
  workspace = text_eq→eq job.workspace_id scope.workspace_id (ground arith);
  user = text_eq→eq job.created_by_user_id scope.user_id (ground arith);
  channel =
      same_channel→eq job.conversation_channel conversation.conversation_channel (ground arith);
  conversation_id = text_eq→eq job.conversation_id conversation.conversation_id (ground arith);
  present = ground arith;
}

All-by_next_run : (P : Job → Type 0) (js : List Job) → All P js → All P (by_next_run js)
unfolding by_next_run
All-by_next_run P js h =
    All-append P _ _
      (All-order_by P (λ (j : Job). get_or j.next_run_at 0)
        (select (λ j. not (is_null j.next_run_at)) js)
        (All-mono _ P (λ j s. s.0) _ (All-select P (λ j. not (is_null j.next_run_at)) js h)))
      (All-mono _ P (λ j s. s.0) _ (All-select P (λ j. is_null j.next_run_at) js h))

module _ (p : Platform) (scope : AccessScope) (conversation : Conversation) where
  abbrev pub Own : ListedJob → Type 0
  Own l = IsOwn scope conversation l.job

  with_latest-Own :
      (job : Job) (latest : Option Run) (l : ListedJob)
      → IsOwn scope conversation job
      → with_latest p job latest ≡ ok l
      → Own l
  unfolding with_latest
  with_latest-Own job none l own e = ground arith
  with_latest-Own job (some run) l own e =
      let (r, parsed, same) = >>=-ok (parse_run p run) _ e in ground arith

  parse_job-eq-ok : (job j : Job) → parse_job p job ≡ ok j → job ≡ j
  unfolding parse_job
  parse_job-eq-ok job j e = ground arith

  listed-Own :
      (runs : List Run) (job : Job) (l : ListedJob)
      → IsOwn scope conversation job
      → listed p runs job ≡ ok l
      → Own l
  unfolding listed
  listed-Own runs job l own e =
      let (j, parsed, rest) = >>=-ok (parse_job p job) _ e in
      with_latest-Own j _ l (subst (IsOwn scope conversation) (parse_job-eq-ok job j parsed) own)
        rest

  each_listed-Own :
      (runs : List Run) (jobs : List Job) (ls : List ListedJob)
      → All (IsOwn scope conversation) jobs
      → each_listed p runs jobs ≡ ok ls
      → All Own ls
  unfolding each_listed
  each_listed-Own runs [] ls own e = subst (All Own) (ok-injective [] ls e) tt
  each_listed-Own runs (job ∷ jobs) ls own e =
      let (first, found, e') = >>=-ok (listed p runs job) _ e in
      let (rest, others, e'') = >>=-ok (each_listed p runs jobs) _ e' in
      subst (All Own) (ok-injective (first ∷ rest) ls e'')
        (listed-Own runs job first own.0 found, each_listed-Own runs jobs rest own.1 others)

  -- Every job that the list shows is the caller's own, of the conversation, and not deleted.
  pub list_jobs-IsOwn :
      (db : Db) (ls : List ListedJob)
      → list_scheduled_agent_jobs p scope conversation db ≡ ok ls
      → All (λ l. IsOwn scope conversation l.job) ls
  unfolding list_scheduled_agent_jobs
  list_jobs-IsOwn db ls e =
      each_listed-Own db.runs (by_next_run (select (is_visible scope conversation) db.jobs)) ls
        (All-by_next_run (IsOwn scope conversation) _ (
          All-mono _ (IsOwn scope conversation) (λ j s. is_visible-IsOwn scope conversation j s.1) _
            (All-select (λ _. Unit {0}) (is_visible scope conversation) db.jobs
              (All-of (λ _. Unit) (λ _. tt) db.jobs))))
        e

hidden :
    (scope : AccessScope) (conversation : Conversation) (id : ℕ) (j : Job)
    → ((j.id == id) ≡ true → ¬ IsOwn scope conversation j)
    → (j.id == id && is_visible scope conversation j) ≡ false
hidden scope conversation id j h =
    elim (Bool-cases (j.id == id && is_visible scope conversation j)) [
      | inr e ↦ e
      | inl e ↦ absurd (
          h (&&-left (j.id == id) _ e) (
            is_visible-IsOwn scope conversation j
              (&&-right (j.id == id) (is_visible scope conversation j) e)))
    ]

-- An update of a job that is not the caller's own finds nothing and changes nothing.
pub update_job-foreign :
    (p : Platform) (scope : AccessScope) (conversation : Conversation) (id : ℕ)
    (patch : UpdateScheduledAgentJob) (now : ℕ) (db : Db)
    → All (λ j. (j.id == id) ≡ true → ¬ IsOwn scope conversation j) db.jobs
    → update_scheduled_agent_job p scope conversation id patch now db ≡ (ok none, db)
unfolding update_scheduled_agent_job
update_job-foreign p scope conversation id patch now db h = rw (
  find_first-none (λ j. j.id == id && is_visible scope conversation j) db.jobs
      (All-mono _ _ (hidden scope conversation id) db.jobs h),
  update_scheduled_agent_job,
)
