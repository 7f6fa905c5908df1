-- ===== src/Teams/Progress.antt =====
-- A run of a well-formed team never stalls.
use deep_foundry.Base.{
  ℕ, zero, suc, ◌≤◌, ◌<◌, true, false, not, Option, none, some, List, [], ◌∷◌, ◌≡◌, inl, inr, refl,
  arith, ◌==◌, ltb, any, keep, length, length-append, count_if, map, get_elem?, Bool-cases,
}
use deep_foundry.Teams.{Pattern, sequential, manager_delegate, parallel_merge, Member}
use deep_foundry.Teams.Engine.{
  TeamTask, TeamRun, TeamRunStatus, running, Kind, TeamResult, team_task, add_tasks, is_failed,
  is_unfinished, manager_of, Advanced, complete_team, start_tasks, delegate_tasks, synthesize,
  delegate_work, last_of, in_turn, continue_tasks, next_tasks, advance_agent_team_run,
  advance_status,
}
use deep_foundry.Teams.Created.{manages, AreDistinct}

-- A run whose team can work: it has members, with different ids, and one manager if the manager
-- delegates.
pub record IsWorkable (run : TeamRun) : Type 0 where
  pub nonempty : 1 ≤ length run.members
  pub apart : AreDistinct run.members
  pub led : run.pattern ≡ manager_delegate → count_if manages run.members ≡ 1

-- What an advance of a run does whose tasks have all ended: it starts at least one more task and asks
-- to be polled, or it completes the run.
pub data Moves (now : ℕ) (run : TeamRun) : Advanced → Type 0 where
  starts :
      (tasks : List TeamTask) → 1 ≤ length tasks → Moves now run (some (add_tasks run tasks, true))
  completes : (result : TeamResult) → Moves now run (complete_team now run result)

find-manager :
    (members : List Member)
    → count_if manages members ≡ 1
    → (m : Member) × (manager_of members ≡ some m)
find-manager [] h = absurd (omega (arith, h))
find-manager (m ∷ ms) h = elim (Bool-cases (manages m)) [
  | inl e ↦ (m, rw e refl)
  | inr e ↦ let (n, f) = find-manager ms (ground (arith, e, h)) in (n, rw e f)
]

get_elem?-some :
    (members : List Member) (i : ℕ)
    → i < length members
    → (m : Member) × (get_elem? members i ≡ some m)
get_elem?-some [] i h = absurd (omega (arith, h))
get_elem?-some (m ∷ ms) zero h = (m, refl)
get_elem?-some (m ∷ ms) (suc i) h = get_elem?-some ms i (omega (arith, h))

length-map :
    (f : Member → TeamTask) (members : List Member) → length (map f members) ≡ length members
length-map f [] = refl
length-map f (m ∷ ms) = omega (arith, length-map f ms)

length-delegate_tasks :
    (members : List Member) (manager : Member) (planned : TeamTask)
    → 1 ≤ length members
    → AreDistinct members
    → 1 ≤ length (delegate_tasks members manager planned)
length-delegate_tasks [] manager planned h d = absurd (omega (arith, h))
length-delegate_tasks (m ∷ []) manager planned h d = ground (
  arith,
  length-append
      (map (λ (n : Member). team_task n Kind.delegate (planned.result ∷ []))
        (keep (λ (n : Member). not (n.id == manager.id)) (m ∷ [])))
      (team_task manager Kind.synthesis (planned.result ∷ []) ∷ []),
)
length-delegate_tasks (m ∷ n ∷ ms) manager planned h d = elim (Bool-cases (m.id == manager.id)) [
  | inl e ↦
      let other : (n.id == manager.id) ≡ false = ground (arith, e, d.0.0.0) in
      rw (e, other) (omega arith)
  | inr e ↦ rw e (omega arith)
]

module _ (now : ℕ) (run : TeamRun) (workable : IsWorkable run) where
  synthesize-Moves :
      (manager : Member) (delegates : List TeamTask) (final : Option TeamTask)
      → Moves now run (synthesize now run manager delegates final)
  synthesize-Moves manager delegates (some final) = completes _
  synthesize-Moves manager [] none = completes _
  synthesize-Moves manager (d ∷ ds) none = starts _ (omega arith)

  delegate_work-Moves :
      (manager : Member) (planned : Option TeamTask) (delegates : List TeamTask)
      (final : Option TeamTask)
      → Moves now run (delegate_work now run manager planned delegates final)
  delegate_work-Moves manager (some planned) [] none =
      starts _ (length-delegate_tasks run.members manager planned workable.nonempty workable.apart)
  delegate_work-Moves manager (some planned) [] (some final) = completes _
  delegate_work-Moves manager (some planned) (d ∷ ds) final =
      synthesize-Moves manager (d ∷ ds) final
  delegate_work-Moves manager none delegates final = synthesize-Moves manager delegates final

  in_turn-Moves : (previous : TeamTask) → Moves now run (in_turn now run previous)
  in_turn-Moves previous = elim (Bool-cases (ltb (length run.tasks) (length run.members))) [
    | inl e ↦
        let (m, f) = get_elem?-some run.members (length run.tasks) (ground (arith, e)) in
        rw (e, f) (starts _ (omega arith))
    | inr e ↦ rw e (completes _)
  ]

  continue_tasks-Moves :
      (t : TeamTask) (ts : List TeamTask) (pattern : Pattern)
      → run.pattern ≡ pattern
      → Moves now run (continue_tasks now run t ts pattern)
  continue_tasks-Moves t ts manager_delegate e =
      let (m, f) = find-manager run.members (workable.led e) in rw f (delegate_work-Moves m _ _ _)
  continue_tasks-Moves t ts sequential e = in_turn-Moves (last_of t ts)
  continue_tasks-Moves t ts parallel_merge e = completes _

  start_tasks-Moves :
      (pattern : Pattern) → run.pattern ≡ pattern → Moves now run (start_tasks run pattern)
  start_tasks-Moves manager_delegate e =
      let (m, f) = find-manager run.members (workable.led e) in rw f (starts _ (omega arith))
  start_tasks-Moves sequential e =
      let (m, f) = get_elem?-some run.members 0 (omega (arith, workable.nonempty)) in
      rw f (starts _ (omega arith))
  start_tasks-Moves parallel_merge e =
      starts _
        (omega (arith, workable.nonempty, length-map (λ m. team_task m Kind.work []) run.members))

  next_tasks-Moves : (tasks : List TeamTask) → Moves now run (next_tasks now run tasks)
  next_tasks-Moves [] = start_tasks-Moves run.pattern refl
  next_tasks-Moves (t ∷ ts) = continue_tasks-Moves t ts run.pattern refl

-- While a run of a well-formed team is running and all of its tasks have ended, none of them failed,
-- an advance never raises and never polls in vain: it starts at least one more task or completes the
-- run.
pub advance_agent_team_run-Moves :
    (now : ℕ) (run : TeamRun)
    → IsWorkable run
    → run.status ≡ running
    → any is_failed run.tasks ≡ false
    → any is_unfinished run.tasks ≡ false
    → Moves now run (advance_agent_team_run now run)
unfolding advance_agent_team_run
advance_agent_team_run-Moves now run workable active sound ended = at_status run.status active
  where
    at_status :
        (status : TeamRunStatus) → status ≡ running → Moves now run (advance_status now run status)
    at_status running e = rw (sound, ended) (next_tasks-Moves now run workable run.tasks)
    at_status TeamRunStatus.completed e = cc
    at_status TeamRunStatus.failed e = cc
