-- ===== src/SemaphorePipe/Setup.antt =====
-- Lab_3/LINUX/src/main.cpp: `main` up to the two loops and behind that of the parent, with what it
-- asks of the kernel. The answers of the kernel are given.
use labs_spo.Common.{
  ℕ, ◌*◌, ◌%◌, ◌^◌, ◌≡◌, ◌⊎◌, refl, inl, inr, Bool, true, false, List, [], ◌∷◌, Option, none, some,
  arith, ◌==◌, ◌||◌, if◌then◌else◌,
}
use labs_spo.Common.Bytes.{Bytes}
use labs_spo.SemaphorePipe.{System, start}

-- The answers to the calls in their order: the ends of the pipe, `ftok` and `rand`, the set of
-- semaphores for a key, whether the calls of `semctl` fail, and the process of the child.
pub record Answers : Type 0 where
  pub pipe : Option (ℕ × ℕ)
  pub token : ℕ
  pub random : ℕ
  pub semget : ℕ → Option ℕ
  pub client_semctl_fails : Bool
  pub server_semctl_fails : Bool
  pub fork : Option ℕ

-- What the kernel did for the program. `fails` is a call that reports an error.
pub data Call : Type 0 where
  opens_pipe : ℕ → ℕ → Call
  gives_set : ℕ → Call
  forks : ℕ → Call
  kills : ℕ → Call
  closes : ℕ → Call
  removes_set : ℕ → Call
  fails : Call

-- What the two processes have at hand.
pub record Handles : Type 0 where
  pub read_end : ℕ
  pub write_end : ℕ
  pub sem_id : ℕ
  pub pid : ℕ

-- `exit(EXIT_FAILURE)`, or the two loops; the calls so far, the newest first.
pub data Launch : Type 0 where
  exits : List Call → Launch
  running : Handles → System → List Call → Launch

-- The product in 32 bits.
pub get_key : Answers → ℕ
get_key a = a.token * (a.random % 10) % 2 ^ 32

pub fork_child : Option ℕ → ℕ × ℕ → ℕ → Bytes → List Call → Launch
fork_child none ends id buf log = exits (fails ∷ log)
fork_child (some pid) (r, w) id buf log =
    running (record { read_end = r; write_end = w; sem_id = id; pid = pid }) (start buf)
      (forks pid ∷ log)

-- Both calls of `semctl` with SETVAL; without a set the first of them fails.
pub set_values : Answers → Option ℕ → ℕ × ℕ → Bytes → List Call → Launch
set_values a none ends buf log = exits (fails ∷ log)
set_values a (some id) ends buf log =
    if a.client_semctl_fails || a.server_semctl_fails
    then exits (fails ∷ (gives_set id ∷ log))
    else fork_child a.fork ends id buf (gives_set id ∷ log)

pub open_pipe : Answers → Option (ℕ × ℕ) → Bytes → Launch
open_pipe a none buf = exits (fails ∷ [])
open_pipe a (some (r, w)) buf = set_values a (a.semget (get_key a)) (r, w) buf (opens_pipe r w ∷ [])

pub launch : Answers → Bytes → Launch
launch a buf = open_pipe a a.pipe buf

-- Behind the parent's loop. The first IPC_RMID removes the whole set, so the second one fails.
pub finish : Handles → List Call → List Call
finish h log =
    fails
    ∷ (removes_set h.sem_id ∷ (closes h.write_end ∷ (closes h.read_end ∷ (kills h.pid ∷ log))))

-- Whether the set is still there; it outlives the processes.
pub remains : ℕ → List Call → Bool
remains id [] = false
remains id (gives_set k ∷ log) = let before = remains id log in if k == id then true else before
remains id (removes_set k ∷ log) = let before = remains id log in if k == id then false else before
remains id (e ∷ log) = remains id log

-- After the line "/dis" the program leaves no set of its own behind.
finish-remains : (h : Handles) (log : List Call) → remains h.sem_id (finish h log) ≡ false
unfolding finish remains
finish-remains h log = ground arith

left_by_set_values :
    (a : Answers) (id : ℕ) (ends : ℕ × ℕ) (buf : Bytes) (log : List Call)
    → ((a.client_semctl_fails || a.server_semctl_fails) ≡ true) ⊎ (a.fork ≡ none)
    → (calls : List Call) × (set_values a (some id) ends buf log ≡ exits calls)
      × (remains id calls ≡ true)
unfolding set_values fork_child remains
left_by_set_values a id ends buf log (inl bad) =
    (fails ∷ (gives_set id ∷ log), rw bad refl, ground arith)
left_by_set_values a id ends buf log (inr childless) =
    (fails ∷ (gives_set id ∷ log), rw childless (ground arith), ground arith)

-- If the kernel gives a set of semaphores and `semctl` or `fork` fails: the program exits, and the
-- set remains in the kernel.
launch_leaves_set :
    (a : Answers) (buf : Bytes) (id r w : ℕ)
    → a.pipe ≡ some (r, w)
    → a.semget (get_key a) ≡ some id
    → ((a.client_semctl_fails || a.server_semctl_fails) ≡ true) ⊎ (a.fork ≡ none)
    → (calls : List Call) × (launch a buf ≡ exits calls) × (remains id calls ≡ true)
unfolding launch open_pipe set_values remains get_key
launch_leaves_set a buf id r w e f bad =
    rw (e, f) (left_by_set_values a id (r, w) buf (opens_pipe r w ∷ []) bad)
