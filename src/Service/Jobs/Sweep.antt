-- ===== src/Service/Jobs/Sweep.antt =====
-- What the sweep of the job store (internal/service/jobs.go) removes.
use meme.Base.{
  ℕ, ◌≡◌, ◌≤◌, ◌⊎◌, Bool-cases, refl, sym, &&-true, true, false, not, ◌&&◌, none, some, [], ◌∷◌,
  arith, if◌then◌else◌, Text, str_eq, IsMap, lookup-keep, In, inl, inr,
}
use meme.Service.Jobs.{JobRecord, JobStore, done, done_before, get, sweep, victim_dirs}

module _ {F : Type 0} where
  -- After a sweep a lookup finds exactly what it found before, but for the jobs that had finished
  -- before the cutoff. The store is a map, one entry to an id.
  pub get-sweep :
      (cutoff : ℕ) (id : Text) (s : JobStore F)
      → IsMap s
      → get id (sweep cutoff s).0
        ≡ elim (get id s) [ none ↦ none | some j ↦ if done_before cutoff j then none else some j ]
  unfolding get sweep
  get-sweep cutoff id s h = ground (arith, lookup-keep (λ j. not (done_before cutoff j)) id s h)

  -- A job that is queued or running, or that finished at the cutoff or later, survives the sweep.
  -- The store is a map, one entry to an id.
  pub sweep_spares :
      (cutoff : ℕ) (id : Text) (s : JobStore F) (j : JobRecord F)
      → IsMap s
      → get id s ≡ some j
      → (done j.state ≡ false) ⊎ ((t : ℕ) × (j.finished ≡ some t) × (cutoff ≤ t))
      → get id (sweep cutoff s).0 ≡ some j
  unfolding done_before
  sweep_spares cutoff id s j h e spared = rw (get-sweep cutoff id s h, e) (ground (arith, spared))

  -- `d` is the directory of a job of `s` that had finished before the cutoff.
  abbrev pub DroppedDir : ℕ → JobStore F → Text → Type 0
  DroppedDir cutoff s d =
      (id : Text) × (j : JobRecord F) × In (id, j) s × (j.dir ≡ d) × (done_before cutoff j ≡ true)

  dropped_later :
      (cutoff : ℕ) (e : Text × JobRecord F) (s : JobStore F) (d : Text)
      → DroppedDir cutoff s d
      → DroppedDir cutoff (e ∷ s) d
  dropped_later cutoff e s d (id, j, m, h, t) = (id, j, inr m, h, t)

  dropped_first :
      (cutoff : ℕ) (id : Text) (j : JobRecord F) (s : JobStore F) (d : Text)
      → (done_before cutoff j && not (str_eq j.dir [])) ≡ true
      → (In d (victim_dirs cutoff s) → DroppedDir cutoff s d)
      → In d (j.dir ∷ victim_dirs cutoff s)
      → DroppedDir cutoff ((id, j) ∷ s) d
  dropped_first cutoff id j s d t rest (inl e) = (id, j, inl refl, sym e, (&&-true t).0)
  dropped_first cutoff id j s d t rest (inr r) = dropped_later cutoff (id, j) s d (rest r)

  victim_dirs_lem :
      (cutoff : ℕ) (s : JobStore F) (d : Text) → In d (victim_dirs cutoff s) → DroppedDir cutoff s d
  unfolding victim_dirs
  victim_dirs_lem cutoff [] d i = absurd i
  victim_dirs_lem cutoff ((id, j) ∷ s) d i =
      elim (Bool-cases (done_before cutoff j && not (str_eq j.dir []))) [
        | inl goes ↦ dropped_first cutoff id j s d goes (victim_dirs_lem cutoff s d) (rw goes at i)
        | inr stays ↦ dropped_later cutoff (id, j) s d (victim_dirs_lem cutoff s d (rw stays at i))
      ]

  -- A directory that a sweep removes belongs to a job of the store that had finished before the
  -- cutoff.
  pub sweep_dirs :
      (cutoff : ℕ) (s : JobStore F) (d : Text) → In d (sweep cutoff s).1 → DroppedDir cutoff s d
  unfolding sweep
  sweep_dirs cutoff s d i = victim_dirs_lem cutoff s d i
