-- ===== src/ThreadStack/Numbers.antt =====
-- Lab_4/WIN/main.cpp: the numbers of the threads, and what a failed start leaves.
use labs_spo.Common.{
  ℕ, zero, suc, ◌+◌, ◌-◌, ◌≡◌, ◌≢◌, ◌⊎◌, refl, sym, ap, subst, ◌∙◌, inl, inr, Bool, true, false,
  Bool-cases, List, [], ◌∷◌, map, Option, none, some, arith, ◌==◌, if◌then◌else◌, length, All,
}
use labs_spo.ThreadStack.{
  HandleHeap, Stack, Answers, new_thread, add_thread, remove_thread, quit, tolower, handle_key,
  round, tick, run,
}

-- What the program promises of its threads: how many there are, and whether it still runs.
pub record Pool : Type 0 where
  pub count : ℕ
  pub is_open : Bool

abbrev pool_key : ℕ → Pool → Pool
pool_key c p =
    if c == b'+'
    then record p { count = p.count + 1 }
    else if c == b'-'
    then record p { count = p.count - 1 }
    else if c == b'q'
    then record { count = 0; is_open = false }
    else p

abbrev pool_round : Option ℕ → Pool → Pool
pool_round none p = p
pool_round (some c) p = pool_key (tolower c) p

abbrev pool_tick : Bool → Option ℕ → Pool → Pool
pool_tick true key p = pool_round key p
pool_tick false key p = p

pub pool_run : List Answers → Pool → Pool
pool_run [] p = p
pool_run (a ∷ rest) p = pool_run rest (pool_tick p.is_open a.key p)

abbrev pub down_from : ℕ → List ℕ
down_from zero = []
down_from (suc n) = n ∷ down_from n

-- The threads of the stack are numbered from 0 without a gap, the last started on top.
abbrev pub Refines : Stack → Pool → Type 0
Refines s p =
    (map (λ (t : HandleHeap). t.number) s.threads ≡ down_from p.count) × (s.is_running ≡ p.is_open)

-- The system can start a thread.
abbrev pub Succeeds : Answers → Type 0
Succeeds a = (a.block ≢ 0) × (a.thread ≢ 0)

length-numbers :
    (n : ℕ) (ts : List HandleHeap)
    → map (λ (t : HandleHeap). t.number) ts ≡ down_from n
    → length ts ≡ n
length-numbers zero [] e = refl
length-numbers zero (t ∷ ts) e = cc e
length-numbers (suc n) [] e = cc e
length-numbers (suc n) (t ∷ ts) e = ap suc (length-numbers n ts (cc e))

add_thread-Refines :
    (a : Answers) (s : Stack) (p : Pool)
    → Succeeds a
    → Refines s p
    → Refines
        (add_thread (new_thread (length s.threads) a s.log) s)
        (record p { count = p.count + 1 })
unfolding add_thread new_thread
add_thread-Refines a s p ok r = let count = length-numbers p.count s.threads r.0 in ground arith

numbers-pop :
    (n : ℕ) (t : HandleHeap) (ts : List HandleHeap)
    → map (λ (u : HandleHeap). u.number) (t ∷ ts) ≡ down_from n
    → map (λ (u : HandleHeap). u.number) ts ≡ down_from (n - 1)
numbers-pop zero t ts e = cc e
numbers-pop (suc n) t ts e =
    let rest : map (λ (u : HandleHeap). u.number) ts ≡ down_from n = cc e in
    let same : n ≡ suc n - 1 = omega arith in rest ∙ ap down_from same

remove_thread-Refines :
    (ts : List HandleHeap) (s : Stack) (p : Pool)
    → s.threads ≡ ts
    → Refines s p
    → Refines (remove_thread ts s) (record p { count = p.count - 1 })
unfolding remove_thread
remove_thread-Refines [] s p e r =
    let none_left = length-numbers p.count s.threads r.0 in
    let zero_left : p.count ≡ 0 = sym none_left ∙ ap length e in (rw (e, zero_left) refl, r.1)
remove_thread-Refines (t ∷ ts) s p e r =
    (numbers-pop p.count t ts (ap (map (λ (u : HandleHeap). u.number)) (sym e) ∙ r.0), r.1)

handle_key-Refines :
    (c : ℕ) (a : Answers) (s : Stack) (p : Pool)
    → Succeeds a
    → Refines s p
    → Refines (handle_key c a s) (pool_key c p)
unfolding handle_key quit
handle_key-Refines c a s p ok r = elim (Bool-cases (c == b'+')) [
  | inl plus ↦ rw plus (add_thread-Refines a s p ok r)
  | inr e ↦ elim (Bool-cases (c == b'-')) [
    | inl minus ↦ rw (e, minus) (remove_thread-Refines s.threads s p refl r)
    | inr e' ↦ elim (Bool-cases (c == b'q')) [
      | inl last ↦ rw (e, e', last) (refl, refl)
      | inr e'' ↦ rw (e, e', e'') r
    ]
  ]
]

round-Refines :
    (key : Option ℕ) (a : Answers) (s : Stack) (p : Pool)
    → Succeeds a
    → Refines s p
    → Refines (round key a s) (pool_round key p)
unfolding round
round-Refines none a s p ok r = r
round-Refines (some c) a s p ok r = handle_key-Refines (tolower c) a s p ok r

tick-Refines :
    (running : Bool) (a : Answers) (s : Stack) (p : Pool)
    → Succeeds a
    → Refines s p
    → Refines (tick running a s) (pool_tick running a.key p)
unfolding tick
tick-Refines true a s p ok r = round-Refines a.key a s p ok r
tick-Refines false a s p ok r = r

-- The stack of threads refines a counter. From states that agree, if every thread can be started:
-- in step with '+' and '-' on the counter the threads carry the numbers from 0 to one below it, each
-- once, the last started on top, and the loop runs on as long as the counter is open.
pub run-Refines :
    (rounds : List Answers) (s : Stack) (p : Pool)
    → All Succeeds rounds
    → Refines s p
    → Refines (run rounds s) (pool_run rounds p)
unfolding run pool_run
run-Refines [] s p ok r = r
run-Refines (a ∷ rounds) s p ok r =
    run-Refines rounds (tick s.is_running a s) (pool_tick p.is_open a.key p) ok.1 (
      subst (λ b. Refines (tick s.is_running a s) (pool_tick b a.key p)) r.1
        (tick-Refines s.is_running a s p ok.0 r))

-- If '+' is pressed while the program runs and a call of `new_thread` fails: all threads are closed,
-- and the program goes on with a null thread as its only one.
null_thread_pushed :
    (a : Answers) (s : Stack)
    → s.is_running ≡ true
    → a.key ≡ some b'+'
    → ((a.block ≡ 0) ⊎ (a.thread ≡ 0))
    → (t : HandleHeap) × ((tick s.is_running a s).threads ≡ t ∷ [])
      × (t.thread ≡ 0)
      × ((tick s.is_running a s).is_running ≡ true)
unfolding tick round handle_key add_thread new_thread
null_thread_pushed a s on key fails =
    let n = length s.threads in ((new_thread n a s.log).0, ground arith, ground arith, ground arith)
