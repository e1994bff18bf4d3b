-- ===== src/Search/Loop/Counts.antt =====
-- The loop accounts for every source: each is queued, running, completed or failed.
use panshou.Prelude.{
  ℕ, suc, ◌+◌, ◌≤◌, max, ◌≡◌, refl, sym, ◌∙◌, ap, true, false, Option, none, some, List, [], ◌∷◌,
  ◌++◌, arith, ltb, ltb→lt, if◌then◌else◌, is_empty, length, length-append, lookup, nat_eq,
  Bool-cases, inl, inr,
}
use panshou.Core.Model.{SearchResult}
use panshou.Providers.Context.{SearchContext}
use panshou.Search.Options.{SearchOptions, Task}
use panshou.Search.Loop.{
  Running, SearchState, Move, start, publishes, fill_from, fill, is_task, find_task, drop_task,
  mark_started, begin, publish_to, move, move_all,
}

abbrev count_started : List Running → ℕ
count_started [] = 0
count_started (r ∷ rs) = if r.started then suc (count_started rs) else count_started rs

-- The counters agree with the queue and the tasks, and no more tasks run than are allowed.
abbrev pub WellFormed : (jobs selected : ℕ) → SearchState → Type 0
WellFormed jobs selected s =
    (s.sources_started ≡ s.successful_sources + length s.errors + count_started s.tasks)
    × (selected ≡ length s.queue + length s.tasks + s.successful_sources + length s.errors)
    × (length s.tasks ≤ max jobs 1)

count_started_append :
    (rs : List Running) (t : Task)
    → count_started (rs ++ record { task = t; started = false } ∷ []) ≡ count_started rs
count_started_append [] t = refl
count_started_append (r ∷ rs) t = ground (arith, count_started_append rs t)

pub count_started_le : (rs : List Running) → count_started rs ≤ length rs
count_started_le [] = omega arith
count_started_le (r ∷ rs) = ground (arith, count_started_le rs)

-- What the inner loop keeps, and that it starts a task whenever there is one.
abbrev Filled : ℕ → List Task → List Running → List Task × List Running → Type 0
Filled jobs queue tasks filled =
    (length filled.0 + length filled.1 ≡ length queue + length tasks)
    × (count_started filled.1 ≡ count_started tasks)
    × (length filled.1 ≤ max jobs 1)
    × (is_empty filled.1 ≡ true → length filled.0 ≡ 0)

pub fill_from-Filled :
    (jobs : ℕ) (queue : List Task) (tasks : List Running)
    → length tasks ≤ max jobs 1
    → Filled jobs queue tasks (fill_from jobs queue tasks)
fill_from-Filled jobs [] tasks h = (refl, refl, h, λ e. refl)
fill_from-Filled jobs (t ∷ queue) tasks h = elim (Bool-cases (ltb (length tasks) (max jobs 1))) [
  | inl e ↦ rw e (
      let r =
        fill_from-Filled jobs queue (tasks ++ record { task = t; started = false } ∷ []) (room e) in
      (r.0 ∙ one_more, r.1 ∙ count_started_append tasks t, r.2, r.3))
  | inr e ↦ rw e (refl, refl, h, λ k. absurd (full tasks e k))
]
  where
    one_more :
        length queue + length (tasks ++ record { task = t; started = false } ∷ [])
        ≡ suc (length queue) + length tasks
    one_more = omega (arith, length-append tasks (record { task = t; started = false } ∷ []))

    room :
        ltb (length tasks) (max jobs 1) ≡ true
        → length (tasks ++ record { task = t; started = false } ∷ []) ≤ max jobs 1
    room e = omega (
      arith,
      ltb→lt (length tasks) (max jobs 1) e,
      length-append tasks (record { task = t; started = false } ∷ []),
    )

    full :
        (tasks : List Running) → ltb (length tasks) (max jobs 1) ≡ false → is_empty tasks ≡ true → ⊥
    full [] e k = absurd (ground arith)
    full (r ∷ rs) e k = absurd (ground arith)

pub fill-WellFormed :
    (jobs selected : ℕ) (s : SearchState)
    → WellFormed jobs selected s
    → WellFormed jobs selected (fill jobs s)
fill-WellFormed jobs selected s h =
    let f = fill_from-Filled jobs s.queue s.tasks h.2 in
    (
      h.0 ∙ ap (λ n. s.successful_sources + length s.errors + n) (sym f.1),
      omega (arith, h.1, f.0),
      f.2,
    )

mark_started_lem :
    (index : ℕ) (rs : List Running) {r : Running}
    → find_task index false rs ≡ some r
    → (length (mark_started index rs) ≡ length rs)
      × (count_started (mark_started index rs) ≡ suc (count_started rs))
mark_started_lem index [] {r = q} h = absurd (ground arith)
mark_started_lem index (r ∷ rs) {r = q} h = elim (Bool-cases (is_task index false r)) [
  | inl e ↦ ground arith
  | inr e ↦
      let rest = mark_started_lem index rs {r = q} (ground arith) in
      rw e (omega (arith, rest.0), ground (arith, rest.1))
]

pub drop_task_lem :
    (index : ℕ) (rs : List Running) {r : Running}
    → find_task index true rs ≡ some r
    → (length rs ≡ suc (length (drop_task index true rs)))
      × (count_started rs ≡ suc (count_started (drop_task index true rs)))
drop_task_lem index [] {r = q} h = absurd (ground arith)
drop_task_lem index (r ∷ rs) {r = q} h = elim (Bool-cases (is_task index true r)) [
  | inl e ↦ ground arith
  | inr e ↦
      let rest = drop_task_lem index rs {r = q} (ground arith) in
      rw e (omega (arith, rest.0), ground (arith, rest.1))
]

-- The sources that are queued or running.
abbrev pub work : SearchState → ℕ
work s = length s.queue + length s.tasks

-- From one state to another the counters still agree and no source is gained or lost.
abbrev Keeps : (jobs selected : ℕ) → SearchState → SearchState → Type 0
Keeps jobs selected s t = WellFormed jobs selected t × (work t ≡ work s)

module _ (options : SearchOptions) (overall_deadline : ℕ) where
  begin-Keeps :
      (selected index now : ℕ) (found : Option Running) (s : SearchState)
      → find_task index false s.tasks ≡ found
      → WellFormed options.jobs selected s
      → Keeps options.jobs selected s (begin options overall_deadline index now found s)
  begin-Keeps selected index now none s e h = (h, refl)
  begin-Keeps selected index now (some r) s e h =
      let m = mark_started_lem index s.tasks e in
      (
        (omega (arith, h.0, m.1), omega (arith, h.1, m.0), omega (arith, h.2, m.0)),
        omega (arith, m.0),
      )

  publish_to-Keeps :
      (selected index now : ℕ) (results : List SearchResult) (ctx : Option SearchContext)
      (s : SearchState)
      → WellFormed options.jobs selected s
      → Keeps options.jobs selected s (publish_to options overall_deadline index now results ctx s)
  publish_to-Keeps selected index now results none s h = (h, refl)
  publish_to-Keeps selected index now results (some ctx) s h = (h, refl)

  move-Keeps :
      (selected : ℕ) (s : SearchState) (m : Move)
      → WellFormed options.jobs selected s
      → Keeps options.jobs selected s (move options overall_deadline s m)
  unfolding move
  move-Keeps selected s (start index now) h =
      begin-Keeps selected index now (find_task index false s.tasks) s refl h
  move-Keeps selected s (publishes index now results) h =
      publish_to-Keeps selected index now results (lookup index s.collectors) s h

  pub move_all-Keeps :
      (selected : ℕ) (s : SearchState) (ms : List Move)
      → WellFormed options.jobs selected s
      → Keeps options.jobs selected s (move_all options overall_deadline s ms)
  unfolding move_all
  move_all-Keeps selected s [] h = (h, refl)
  move_all-Keeps selected s (m ∷ ms) h =
      let first = move-Keeps selected s m h in
      let rest = move_all-Keeps selected (move options overall_deadline s m) ms first.0 in
      (rest.0, rest.1 ∙ first.1)
