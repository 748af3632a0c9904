-- ===== src/Service/Executor/Slots.antt =====
-- The semaphore of `Executor` (internal/service/executor.go), a channel of `MaxJobs` slots, and the
-- calls of `Execute` that run at the same time.
use meme.Base.{
  ℕ, ℤ, suc, ◌+◌, ◌≤◌, ◌<◌, ◌≡◌, refl, ap, ◌∙◌, Bool, true, false, List, [], ◌∷◌, ◌++◌, arith,
}
use meme.Service.Executor.{new_max_jobs}

-- Where a call of `Execute` is: at the select statement, between `Start` and `Finish`, at the
-- deferred receive, or returned.
pub data Phase : Type 0 where
  waiting : Phase
  running : Phase
  releasing : Phase
  ended : Phase

-- The channel's capacity, the slots taken, whether the context is cancelled, and all calls so far.
pub record Slots : Type 0 where
  pub max_jobs : ℕ
  pub taken : ℕ
  pub cancelled : Bool
  pub calls : List Phase

-- `NewExecutor`
unfoldable pub new_executor : ℤ → Slots
new_executor n = record { max_jobs = new_max_jobs n; taken = 0; cancelled = false; calls = [] }

-- What one call does next: a send waits for room in the channel, a receive for something in it.
pub data Move (max_jobs : ℕ) (cancelled : Bool) : ℕ → Phase → ℕ → Phase → Type 0 where
  acquire :
      (taken : ℕ) → taken < max_jobs → Move max_jobs cancelled taken waiting (suc taken) running
  aborted : (taken : ℕ) → cancelled ≡ true → Move max_jobs cancelled taken waiting taken ended
  finished : (taken : ℕ) → Move max_jobs cancelled taken running taken releasing
  release : (taken : ℕ) → Move max_jobs cancelled (suc taken) releasing taken ended

-- Some call goes on.
pub data Turn (s : Slots) : Slots → Type 0 where
  turn :
      (before after : List Phase) (p q : Phase) (taken : ℕ)
      → s.calls ≡ before ++ p ∷ after
      → Move s.max_jobs s.cancelled s.taken p taken q
      → Turn s (record s { taken = taken; calls = before ++ q ∷ after })

-- What happens next: a call begins, the server shuts down, or a call goes on.
pub data Step (s : Slots) : Slots → Type 0 where
  submit : Step s (record s { calls = s.calls ++ waiting ∷ [] })
  shutdown : Step s (record s { cancelled = true })
  go_on : {t : Slots} → Turn s t → Step s t

pub data Reach (s : Slots) : Slots → Type 0 where
  here : Reach s s
  next : {t u : Slots} → Reach s t → Step t u → Reach s u

abbrev pub holds : Phase → ℕ
holds waiting = 0
holds running = 1
holds releasing = 1
holds ended = 0

abbrev runs : Phase → ℕ
runs running = 1
runs _ = 0

-- The calls that hold a slot, and those that run solvers.
abbrev pub holders : List Phase → ℕ
holders [] = 0
holders (p ∷ ps) = holds p + holders ps

abbrev pub runners : List Phase → ℕ
runners [] = 0
runners (p ∷ ps) = runs p + runners ps

-- The slots taken are those of the calls that hold one.
pub record Inv (s : Slots) : Type 0 where
  pub bounded : s.taken ≤ s.max_jobs
  pub counted : holders s.calls ≡ s.taken

pub holders-append : (ps qs : List Phase) → holders (ps ++ qs) ≡ holders ps + holders qs
holders-append [] qs = omega arith
holders-append (p ∷ ps) qs = omega (arith, holders-append ps qs)

Move-holders :
    {m t t' : ℕ} {c : Bool} {p q : Phase}
    → Move m c t p t' q
    → t ≤ m
    → (t + holds q ≡ t' + holds p) × (t' ≤ m)
Move-holders (acquire t h) b = ground arith
Move-holders (aborted t h) b = ground arith
Move-holders (finished t) b = ground arith
Move-holders (release t) b = ground arith

Turn-Inv : {s t : Slots} → Turn s t → Inv s → Inv t
Turn-Inv {s} (turn before after p q taken e m) i =
    let (moved, bounded) = Move-holders m i.bounded in
    record {
      bounded = bounded;
      counted = omega (
        arith,
        i.counted,
        moved,
        ap holders e,
        holders-append before (p ∷ after),
        holders-append before (q ∷ after),
      );
    }

Step-Inv : {s t : Slots} → Step s t → Inv s → Inv t
Step-Inv {s} submit i = record {
  bounded = i.bounded;
  counted = omega (arith, i.counted, holders-append s.calls (waiting ∷ []));
}
Step-Inv shutdown i = record { bounded = i.bounded; counted = i.counted }
Step-Inv (go_on x) i = Turn-Inv x i

pub new_executor-Inv : (n : ℤ) → Inv (new_executor n)
unfolding new_executor
new_executor-Inv n = ground arith

pub Reach-Inv : {s t : Slots} → Reach s t → Inv s → Inv t
Reach-Inv here i = i
Reach-Inv (next r x) i = Step-Inv x (Reach-Inv r i)

Step-max_jobs : {s t : Slots} → Step s t → t.max_jobs ≡ s.max_jobs
Step-max_jobs submit = refl
Step-max_jobs shutdown = refl
Step-max_jobs (go_on (turn before after p q taken e m)) = refl

pub Reach-max_jobs : {s t : Slots} → Reach s t → t.max_jobs ≡ s.max_jobs
Reach-max_jobs here = refl
Reach-max_jobs (next r x) = Step-max_jobs x ∙ Reach-max_jobs r

runners-holders : (ps : List Phase) → runners ps ≤ holders ps
runners-holders [] = omega arith
runners-holders (waiting ∷ ps) = omega (arith, runners-holders ps)
runners-holders (running ∷ ps) = omega (arith, runners-holders ps)
runners-holders (releasing ∷ ps) = omega (arith, runners-holders ps)
runners-holders (ended ∷ ps) = omega (arith, runners-holders ps)

-- However the calls of `Execute` interleave, no more of them run at a time than the executor has
-- slots.
pub runners_bounded :
    (n : ℤ) (s : Slots) → Reach (new_executor n) s → runners s.calls ≤ new_max_jobs n
unfolding new_executor
runners_bounded n s r =
    let i : Inv s = Reach-Inv r (new_executor-Inv n) in
    omega (arith, i.counted, i.bounded, runners-holders s.calls, Reach-max_jobs r)
