-- ===== src/Service/Executor/Deadlock.antt =====
-- Which calls of `Execute` (internal/service/executor.go) can go on, by the slots that are taken.
use meme.Base.{
  ℤ, pos, negsuc, ℕ, suc, ◌-◌, ◌≤◌, ◌<◌, ◌≡◌, refl, ap, ◌∙◌, ◌≢◌, ◌⊎◌, inl, inr, List, [], ◌∷◌,
  ◌++◌, arith, In,
}
use mathlib.Core.Path.{subst}
use meme.Service.Executor.{new_max_jobs}
use meme.Service.Executor.Slots.{
  Phase, waiting, running, releasing, ended, Slots, new_executor, Move, acquire, finished, release,
  Turn, turn, Reach, holds, holders, holders-append, Inv, Reach-Inv, Reach-max_jobs,
  new_executor-Inv,
}

-- A phase of some call of the list, and what is before and after it.
abbrev Somewhere : (Phase → Type 0) → List Phase → Type 0
Somewhere P ps =
    (before : List Phase) × (p : Phase) × (after : List Phase) × (ps ≡ before ++ p ∷ after) × P p

Somewhere-later :
    (P : Phase → Type 0) (q : Phase) (ps : List Phase) → Somewhere P ps → Somewhere P (q ∷ ps)
Somewhere-later P q ps (before, p, after, e, x) = (q ∷ before, p, after, ap (λ rest. q ∷ rest) e, x)

In-Somewhere : (p : Phase) (ps : List Phase) → In p ps → Somewhere (λ q. p ≡ q) ps
In-Somewhere p [] i = elim i [ ]
In-Somewhere p (q ∷ ps) (inl e) = ([], q, ps, refl, e)
In-Somewhere p (q ∷ ps) (inr i) = Somewhere-later (λ r. p ≡ r) q ps (In-Somewhere p ps i)

abbrev IsHolder : Phase → Type 0
IsHolder p = holds p ≡ 1

IsHolder-exists : (ps : List Phase) → 0 < holders ps → Somewhere IsHolder ps
IsHolder-exists [] h = ground arith
IsHolder-exists (waiting ∷ ps) h =
    Somewhere-later IsHolder waiting ps (IsHolder-exists ps (omega arith))
IsHolder-exists (running ∷ ps) h = ([], running, ps, refl, refl)
IsHolder-exists (releasing ∷ ps) h = ([], releasing, ps, refl, refl)
IsHolder-exists (ended ∷ ps) h =
    Somewhere-later IsHolder ended ps (IsHolder-exists ps (omega arith))

abbrev CanTurn : Slots → Type 0
CanTurn s = (t : Slots) × Turn s t

zero_ne_one : ◌≢◌ {A = ℕ} 0 1
zero_ne_one = omega arith

-- A call that holds a slot is not stopped: what it receives is in the channel.
holder_turns : (s : Slots) → 0 < s.taken → Somewhere IsHolder s.calls → CanTurn s
holder_turns s h (before, waiting, after, e, x) = elim (zero_ne_one x) [ ]
holder_turns s h (before, running, after, e, x) =
    (_, turn before after running releasing s.taken e (finished s.taken))
holder_turns s h (before, releasing, after, e, x) =
    let some_taken : suc (s.taken - 1) ≡ s.taken = omega arith in
    (
      _,
      turn before after releasing ended (s.taken - 1) e (
          subst (λ t. Move s.max_jobs s.cancelled t releasing (s.taken - 1) ended) some_taken
            (release (s.taken - 1))),
    )
holder_turns s h (before, ended, after, e, x) = elim (zero_ne_one x) [ ]

-- With all slots taken some call holds one.
full_turns : (s : Slots) → Inv s → 0 < s.taken → CanTurn s
full_turns s i h =
    let held : 0 < holders s.calls = omega (arith, i.counted) in
    holder_turns s h (IsHolder-exists s.calls held)

waiting_turns :
    (s : Slots) (before after : List Phase)
    → Inv s
    → 0 < s.max_jobs
    → s.calls ≡ before ++ waiting ∷ after
    → (s.taken < s.max_jobs) ⊎ (s.max_jobs ≤ s.taken)
    → CanTurn s
waiting_turns s before after i m e (inl free) =
    (_, turn before after waiting running (suc s.taken) e (acquire s.taken free))
waiting_turns s before after i m e (inr full) = full_turns s i (omega arith)

unfinished_turns :
    (s : Slots) (before after : List Phase) (p : Phase)
    → Inv s
    → 0 < s.max_jobs
    → s.calls ≡ before ++ p ∷ after
    → p ≢ ended
    → CanTurn s
unfinished_turns s before after waiting i m e going =
    waiting_turns s before after i m e (ground arith)
unfinished_turns s before after running i m e going =
    (_, turn before after running releasing s.taken e (finished s.taken))
unfinished_turns s before after releasing i m e going =
    let held : 0 < s.taken =
      omega (arith, i.counted, ap holders e, holders-append before (releasing ∷ after)) in
    holder_turns s held (before, releasing, after, e, refl)
unfinished_turns s before after ended i m e going = elim (going refl) [ ]

new_max_jobs_positive : (n : ℤ) → 0 < new_max_jobs n
unfolding new_max_jobs
new_max_jobs_positive (pos n) = ground arith
new_max_jobs_positive (negsuc n) = omega arith

-- The executor does not deadlock: as long as a call has not returned, some call can go on.
pub execute-never_stuck :
    (n : ℤ) (s : Slots) (p : Phase)
    → Reach (new_executor n) s
    → In p s.calls
    → p ≢ ended
    → (t : Slots) × Turn s t
unfolding new_executor
execute-never_stuck n s p r i going =
    let (before, q, after, e, same) = In-Somewhere p s.calls i in
    let slots : 0 < s.max_jobs = omega (arith, Reach-max_jobs r, new_max_jobs_positive n) in
    unfinished_turns s before after q (Reach-Inv r (new_executor-Inv n)) slots e
      (λ over. going (same ∙ over))
