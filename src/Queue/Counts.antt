-- ===== src/Queue/Counts.antt =====
-- How a change of one job changes the number of jobs that pass a test.
use willy.Prelude.{
  ℕ, ◌+◌, ◌≤◌, ◌≡◌, inl, inr, Bool, true, false, not, ◌&&◌, some, List, [], ◌∷◌, ◌++◌, ◌==◌, find,
  any, count, arith, Bool-cases,
}
use willy.Queue.{Phase, Job, is_queued, is_job, set_phase, drop_job, is_ready}

abbrev pub bit : Bool → ℕ
bit true = 1
bit false = 0

pub count-set_phase :
    (p : Job → Bool) (k : ℕ) (phase : Phase) (jobs : List Job) (j : Job)
    → find (is_job k) jobs ≡ some j
    → count p (set_phase k phase jobs) + bit (p j)
      ≡ count p jobs + bit (p (record j { phase = phase }))
unfolding set_phase
count-set_phase p k phase [] j h = cc
count-set_phase p k phase (i ∷ jobs) j h = ground (arith, count-set_phase p k phase jobs j)

pub count-drop_job :
    (p : Job → Bool) (k : ℕ) (jobs : List Job) (j : Job)
    → find (is_job k) jobs ≡ some j
    → count p (drop_job k jobs) + bit (p j) ≡ count p jobs
unfolding drop_job
count-drop_job p k [] j h = cc
count-drop_job p k (i ∷ jobs) j h = ground (arith, count-drop_job p k jobs j)

pub find-is_job : (k : ℕ) (jobs : List Job) (j : Job) → find (is_job k) jobs ≡ some j → j.id ≡ k
find-is_job k [] j h = cc
find-is_job k (i ∷ jobs) j h = ground (arith, find-is_job k jobs j)

pub count-append :
    (p : Job → Bool) (jobs : List Job) (j : Job)
    → count p (jobs ++ j ∷ []) ≡ count p jobs + bit (p j)
count-append p [] j = ground arith
count-append p (i ∷ jobs) j = ground (arith, count-append p jobs j)

pub count-and : (p q : Job → Bool) (jobs : List Job) → count (λ j. p j && q j) jobs ≤ count p jobs
count-and p q [] = omega arith
count-and p q (j ∷ jobs) = ground (arith, count-and p q jobs)

pub count-find :
    (k : ℕ) (p : Job → Bool) (jobs : List Job)
    → 1 ≤ count (λ j. is_job k j && p j) jobs
    → count (is_job k) jobs ≤ 1
    → (j : Job) × (find (is_job k) jobs ≡ some j) × (p j ≡ true)
count-find k p [] h u = absurd (omega arith)
count-find k p (j ∷ jobs) h u = elim (Bool-cases (j.id == k)) [
  | inl here ↦
      let none_later : count (λ i. is_job k i && p i) jobs ≤ count (is_job k) jobs =
        count-and (is_job k) p jobs in
      (j, rw here, ground arith)
  | inr later ↦
      let (i, found, passes) = count-find k p jobs (ground arith) (ground arith) in
      (i, rw later found, passes)
]

-- A ready job is in the list, has not started, and nothing earlier belongs to its deployment.
pub ready-find :
    (k : ℕ) (jobs : List Job) (earlier : List ℕ)
    → is_ready k jobs earlier ≡ true
    → (j : Job) × (find (is_job k) jobs ≡ some j)
      × (j.phase ≡ Phase.queued)
      × (any (λ d. d == j.deployment) earlier ≡ false)
unfolding is_ready
ready-find k [] earlier h = absurd (ground arith)
ready-find k (j ∷ jobs) earlier h = elim (Bool-cases (j.id == k)) [
  | inl here ↦ (j, rw here, ground arith, ground arith)
  | inr later ↦
      let (i, found, unstarted, alone) =
        ready-find k jobs (j.deployment ∷ earlier) (rw later at h) in
      (i, rw later found, unstarted, ground arith)
]

abbrev pub is_busy : Job → Bool
is_busy j = not (is_queued j.phase)

abbrev pub busy_in : ℕ → Job → Bool
busy_in deployment j = j.deployment == deployment && is_busy j

-- A job that has started has no unsettled job of its deployment before it.
abbrev pub IsSerial : List Job → Type 0
IsSerial [] = Unit {0}
IsSerial (j ∷ jobs) = (count (busy_in j.deployment) jobs ≡ 0) × IsSerial jobs

pub start-IsSerial :
    (k : ℕ) (phase : Phase) (jobs : List Job) (earlier : List ℕ)
    → is_ready k jobs earlier ≡ true
    → IsSerial jobs
    → IsSerial (set_phase k phase jobs)
unfolding is_ready set_phase
start-IsSerial k phase [] earlier h s = tt
start-IsSerial k phase (j ∷ jobs) earlier h (alone, s) = elim (Bool-cases (j.id == k)) [
  | inl here ↦ rw here (alone, s)
  | inr later ↦
      let ready : is_ready k jobs (j.deployment ∷ earlier) ≡ true = rw later at h in
      let (i, found, unstarted, free) = ready-find k jobs (j.deployment ∷ earlier) ready in
      rw later (
        ground (arith, count-set_phase (busy_in j.deployment) k phase jobs i found, alone),
        start-IsSerial k phase jobs (j.deployment ∷ earlier) ready s,
      )
]

pub wake-IsSerial :
    (k : ℕ) (jobs : List Job) (i : Job)
    → find (is_job k) jobs ≡ some i
    → is_busy i ≡ true
    → IsSerial jobs
    → IsSerial (set_phase k Phase.running jobs)
unfolding set_phase
wake-IsSerial k [] i found busy s = tt
wake-IsSerial k (j ∷ jobs) i found busy (alone, s) = elim (Bool-cases (j.id == k)) [
  | inl here ↦ rw here (alone, s)
  | inr later ↦
      let below : find (is_job k) jobs ≡ some i = rw later at found in
      rw later (
        ground (
          arith,
          count-set_phase (busy_in j.deployment) k Phase.running jobs i below,
          alone,
          busy,
        ),
        wake-IsSerial k jobs i below busy s,
      )
]

count-drop-le :
    (p : Job → Bool) (k : ℕ) (jobs : List Job) → count p (drop_job k jobs) ≤ count p jobs
unfolding drop_job
count-drop-le p k [] = omega arith
count-drop-le p k (j ∷ jobs) = ground (arith, count-drop-le p k jobs)

pub drop-IsSerial : (k : ℕ) (jobs : List Job) → IsSerial jobs → IsSerial (drop_job k jobs)
unfolding drop_job
drop-IsSerial k [] s = tt
drop-IsSerial k (j ∷ jobs) (alone, s) = elim (Bool-cases (j.id == k)) [
  | inl here ↦ rw here s
  | inr later ↦
      rw later (omega (arith, count-drop-le (busy_in j.deployment) k jobs), drop-IsSerial k jobs s)
]

pub append-IsSerial :
    (j : Job) (jobs : List Job) → j.phase ≡ Phase.queued → IsSerial jobs → IsSerial (jobs ++ j ∷ [])
append-IsSerial j [] h s = (omega arith, tt)
append-IsSerial j (i ∷ jobs) h (alone, s) =
    (ground (arith, count-append (busy_in i.deployment) jobs j, alone), append-IsSerial j jobs h s)

-- One job of a deployment at most has started.
pub serial_one : (d : ℕ) (jobs : List Job) → IsSerial jobs → count (busy_in d) jobs ≤ 1
serial_one d [] s = omega arith
serial_one d (j ∷ jobs) (alone, s) = elim (Bool-cases (j.deployment == d)) [
  | inl same ↦ ground (arith, alone, serial_one d jobs s)
  | inr differs ↦ ground (arith, serial_one d jobs s)
]
