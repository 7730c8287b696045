-- ===== src/Windows/Hub/Passes.antt =====
-- ipmb/src/platform/windows/mod.rs: the statuses of the pipes of a hub within `listen` and within a
-- pass over the pipes.
use ipmb.Prelude.{
  ℕ, zero, suc, ◌<◌, ◌≡◌, inl, inr, refl, sym, ap, arith, Bool, true, false, Option, none, some,
  List, [], ◌∷◌, ◌++◌, length, All, All-append, append-nil, get_elem?-append, get_elem?-length,
  append-singleton, length-snoc, Bool-cases, ltb,
}
use ipmb.Message.{Bytes}
use ipmb.Linux.Receive.{pop}
use ipmb.Linux.Hub.{swap_remove, last_first}
use ipmb.Windows.{
  start_read, NamedPipeStatus, free, readable, pending, ready, offline, NamedPipe, returned,
  connected, listening, failed, listen, ReadStarted, Read, read,
}
use ipmb.Windows.Hub.{
  IoHub, Step, panics, unfinished, continues, Answer, listen_loop, set_at, after_read, read_pipes,
}

-- A pipe that is read from is not free; a pipe that listens is free, pending or offline.
abbrev pub serves : NamedPipe → Bool
serves p = elim p.status [
  | free ↦ false
  | readable ↦ true
  | pending ↦ true
  | ready ↦ true
  | offline ↦ true
]

abbrev pub may_listen : NamedPipe → Bool
may_listen p = elim p.status [
  | free ↦ true
  | readable ↦ false
  | pending ↦ true
  | ready ↦ false
  | offline ↦ true
]

abbrev pub AllServe : List NamedPipe → Type 0
AllServe = All (λ (p : NamedPipe). serves p ≡ true)

abbrev pub AllPending : List NamedPipe → Type 0
AllPending = All (λ (p : NamedPipe). p.status ≡ pending)

abbrev pub IsSound : IoHub → Type 0
IsSound hub =
    AllServe hub.pipes
    × (elim hub.listening_pipe [ none ↦ Unit {0} | some p ↦ may_listen p ≡ true ])

-- The code does not panic, and where it goes on, a predicate holds.
abbrev pub Safe : {A : Type 0} → (A → Type 0) → Step A → Type 0
Safe P panics = ⊥
Safe P unfinished = Unit
Safe P (continues a) = P a

-- The same, and the code goes on.
abbrev pub Ends : {A : Type 0} → (A → Type 0) → Step A → Type 0
Ends P panics = ⊥
Ends P unfinished = ⊥
Ends P (continues a) = P a

pub listen_loop-IsSound :
    (answers : List Answer) (hub : IoHub) (h : ℕ) (st : NamedPipeStatus) (b : Bytes) (c m : ℕ)
    → let pipe : NamedPipe = record {
      handle = h;
      status = st;
      buffer = b;
      capacity = c;
      message_size = m;
    } in
      AllServe hub.pipes → may_listen pipe ≡ true → Safe IsSound (listen_loop answers hub pipe)
unfolding listen_loop listen
listen_loop-IsSound [] hub h st b c m s l = tt
listen_loop-IsSound (a ∷ answers) hub h readable b c m s l = absurd cc
listen_loop-IsSound (a ∷ answers) hub h ready b c m s l = absurd cc
listen_loop-IsSound (a ∷ answers) hub h pending b c m s l = (s, refl)
listen_loop-IsSound ((a, new) ∷ answers) hub h offline b c m s l =
    listen_loop-IsSound answers hub new free [] 64 0 s refl
listen_loop-IsSound ((returned, new) ∷ answers) hub h free b c m s l = (s, refl)
listen_loop-IsSound ((listening, new) ∷ answers) hub h free b c m s l = (s, refl)
listen_loop-IsSound ((failed, new) ∷ answers) hub h free b c m s l =
    listen_loop-IsSound answers hub new free [] 64 0 s refl
listen_loop-IsSound ((connected, new) ∷ answers) hub h free b c m s l =
    listen_loop-IsSound answers _ new free [] 64 0
      (All-append (λ (p : NamedPipe). serves p ≡ true) hub.pipes _ s (refl, tt)) refl

All-pop :
    (P : NamedPipe → Type 0) (x : NamedPipe) (xs : List NamedPipe)
    → All P (x ∷ xs)
    → (q : NamedPipe × List NamedPipe) × (pop (x ∷ xs) ≡ some q)
      × All P (q.0 ∷ q.1)
      × (length q.1 ≡ length xs)
All-pop P x [] a = ((x, []), refl, a, refl)
All-pop P x (y ∷ ys) a =
    let ((last, init), e, b, n) = All-pop P y ys a.1 in
    ((last, x ∷ init), rw e refl, (b.0, (a.0, b.1)), ap suc n)

-- What takes the place of the pipes behind one that is removed.
removed :
    (P : NamedPipe → Type 0) (xs : List NamedPipe)
    → All P xs
    → All P (last_first (pop xs)) × (length (last_first (pop xs)) ≡ length xs)
removed P [] a = (a, refl)
removed P (x ∷ xs) a = let (q, e, b, n) = All-pop P x xs a in rw e (b, ap suc n)

set_at-append :
    (done rest : List NamedPipe) (p q : NamedPipe)
    → set_at (length done) q (done ++ p ∷ rest) ≡ done ++ q ∷ rest
set_at-append [] rest p q = refl
set_at-append (d ∷ done) rest p q = ap (◌∷◌ d) (set_at-append done rest p q)

swap_remove-append :
    (done rest : List NamedPipe) (p : NamedPipe)
    → swap_remove (length done) (done ++ p ∷ rest) ≡ done ++ last_first (pop rest)
swap_remove-append [] rest p = refl
swap_remove-append (d ∷ done) rest p = ap (◌∷◌ d) (swap_remove-append done rest p)

pub pending_serve : (ps : List NamedPipe) → AllPending ps → AllServe ps
pending_serve [] a = tt
pending_serve (p ∷ ps) a = (ground (arith, a.0), pending_serve ps a.1)

abbrev pipe_of : ℕ → NamedPipeStatus → Bytes → ℕ → ℕ → NamedPipe
pipe_of h st b c m = record { handle = h; status = st; buffer = b; capacity = c; message_size = m }

-- A pass over the pipes ends with a message, or with all pipes that are left pending.
abbrev pub IsRead : Option Read × List NamedPipe → Type 0
IsRead r = elim r.0 [ none ↦ AllPending r.1 | some msg ↦ AllServe r.1 ]

module _ (answer : ℕ → ReadStarted) where
  abbrev EndsRead : ℕ → ℕ → List NamedPipe → Type 0
  EndsRead fuel i pipes = Ends IsRead (read_pipes fuel answer i pipes)

  abbrev AtFuel : ℕ → Type 0
  AtFuel fuel =
      (done rest : List NamedPipe)
      → AllPending done
      → AllServe rest
      → length rest < fuel
      → EndsRead fuel (length done) (done ++ rest)

  pass :
      (fuel : ℕ) (ih : AtFuel fuel) (done rest : List NamedPipe) (p q : NamedPipe)
      → q.status ≡ pending
      → AllPending done
      → AllServe rest
      → length rest < fuel
      → EndsRead fuel (suc (length done)) (set_at (length done) q (done ++ p ∷ rest))
  pass fuel ih done rest p q e a b n =
      rw (set_at-append done rest p q, append-singleton done rest q, sym (length-snoc done q))
        (ih (done ++ q ∷ []) rest
          (All-append (λ (x : NamedPipe). x.status ≡ pending) done _ a (e, tt)) b n)

  drop_offline :
      (fuel : ℕ) (ih : AtFuel fuel) (done rest : List NamedPipe) (p q : NamedPipe)
      → AllPending done
      → AllServe rest
      → length rest < fuel
      → EndsRead fuel
          (length done)
          (swap_remove (length done) (set_at (length done) q (done ++ p ∷ rest)))
  drop_offline fuel ih done rest p q a b n =
      let (c, l) = removed (λ (x : NamedPipe). serves x ≡ true) rest b in
      rw (set_at-append done rest p q, swap_remove-append done rest q)
        (ih done (last_first (pop rest)) a c (omega (arith, l)))

  found :
      (done rest : List NamedPipe) (p q : NamedPipe)
      → serves q ≡ true
      → AllPending done
      → AllServe rest
      → AllServe (set_at (length done) q (done ++ p ∷ rest))
  found done rest p q e a b =
      rw (set_at-append done rest p q)
        (All-append (λ (x : NamedPipe). serves x ≡ true) done _ (pending_serve done a) (e, b))

  started :
      (fuel : ℕ) (ih : AtFuel fuel) (done rest : List NamedPipe) (p q : NamedPipe) (r : ReadStarted)
      → AllPending done
      → AllServe rest
      → length rest < fuel
      → Ends IsRead (
          after_read
            (done ++ p ∷ rest)
            (length done)
            (λ i ps. read_pipes fuel answer i ps)
            (start_read r q))
  started fuel ih done rest p q ReadStarted.failed a b n = drop_offline fuel ih done rest p _ a b n
  started fuel ih done rest p q ReadStarted.returned a b n = pass fuel ih done rest p _ refl a b n
  started fuel ih done rest p q ReadStarted.more_data a b n = pass fuel ih done rest p _ refl a b n
  started fuel ih done rest p q ReadStarted.pending a b n = pass fuel ih done rest p _ refl a b n

  next_read :
      (fuel : ℕ) (ih : AtFuel fuel) (done rest : List NamedPipe) (h : ℕ) (st : NamedPipeStatus)
      (bs : Bytes) (c m : ℕ)
      → let p : NamedPipe = record {
        handle = h;
        status = st;
        buffer = bs;
        capacity = c;
        message_size = m;
      } in
        AllPending done
        → serves p ≡ true
        → AllServe rest
        → length rest < fuel
        → Ends IsRead (
            after_read
              (done ++ p ∷ rest)
              (length done)
              (λ i ps. read_pipes fuel answer i ps)
              (read (answer h) p))
  unfolding read
  next_read fuel ih done rest h free bs c m a s b n = absurd cc
  next_read fuel ih done rest h readable bs c m a s b n =
      started fuel ih done rest _ (pipe_of h readable bs c m) (answer h) a b n
  next_read fuel ih done rest h pending bs c m a s b n = pass fuel ih done rest _ _ refl a b n
  next_read fuel ih done rest h offline bs c m a s b n = drop_offline fuel ih done rest _ _ a b n
  next_read fuel ih done rest h ready bs c m a s b n = elim (Bool-cases (ltb 0 m)) [
    | inl e ↦ rw e (found done rest _ _ refl a b)
    | inr e ↦ rw e (started fuel ih done rest _ (pipe_of h readable bs c m) (answer h) a b n)
  ]

  pub read_pipes-IsRead : (fuel : ℕ) → AtFuel fuel
  unfolding read_pipes
  read_pipes-IsRead zero done rest a b n = absurd (omega arith)
  read_pipes-IsRead (suc fuel) done [] a b n =
      rw (append-nil done, read_pipes, get_elem?-length done, append-nil done) a
  read_pipes-IsRead (suc fuel) done (p ∷ rest) a b n =
      rw (read_pipes, get_elem?-append done rest p)
        (next_read fuel (read_pipes-IsRead fuel) done rest p.handle p.status p.buffer p.capacity
          p.message_size a b.0 b.1 (omega arith))
