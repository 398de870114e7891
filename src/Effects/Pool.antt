-- ===== src/Effects/Pool.antt =====
-- What a contract gives: an execution keeps an invariant of the services, also where executions of
-- several programs interleave, stop at any call, and other actors change the services meanwhile.
use matrix_agent_workspace.Prelude.{
  ℕ, suc, Option, List, [], ◌∷◌, ◌++◌, All, All-left, All-right, All-append,
}
use matrix_agent_workspace.Effects.Syntax.{Prog, ret, throw, op, Settled}
use matrix_agent_workspace.Effects.Run.{Services, run}
use matrix_agent_workspace.Effects.Safety.{Contract, Safe, safe_ret, safe_throw, safe_op, Safe-Next}

-- In the states of `Inv` the services answer as the contract says, and an allowed call keeps `Inv`.
pub record Fulfils {Call : Type 0} {Reply : Call → Type 0} (s : Services Call Reply)
    (C : Contract Call Reply) (Inv : s.World → Type 0) : Type 1 where
  pub answer :
      (i : s.Input) (c : Call) (w : s.World) → Inv w → C.allowed c → C.answers c (s.handle i c w).0
  pub keep : (i : s.Input) (c : Call) (w : s.World) → Inv w → C.allowed c → Inv (s.handle i c w).1

-- One execution, where what the outside contributes is known.
pub run-Keeps :
    {Call : Type 0} {Reply : Call → Type 0} {Exn : Type 0} {A : Type 0} (s : Services Call Reply)
    {C : Contract Call Reply} (Inv : s.World → Type 0) (input : ℕ → s.Input)
    {Post : Settled Exn A → Type 0} {p : Prog Call Reply Exn A}
    → ((n : ℕ) (c : Call) (w : s.World)
        → Inv w
        → C.allowed c
        → C.answers c (s.handle (input n) c w).0 × Inv (s.handle (input n) c w).1)
    → Safe C Post p
    → (n : ℕ) (w : s.World) → Inv w
    → Post (run s input n p w).0 × Inv (run s input n p w).1
unfolding run
run-Keeps s Inv input f (safe_ret a h) n w inv = (h, inv)
run-Keeps s Inv input f (safe_throw e h) n w inv = (h, inv)
run-Keeps s Inv input f (safe_op c k h ih) n w inv =
    let (answer, kept) = f n c w inv h in run-Keeps s Inv input f (ih _ answer) (suc n) _ kept

module _ {Call : Type 0} {Reply : Call → Type 0} {Exn : Type 0} {A : Type 0}
    (s : Services Call Reply) {C : Contract Call Reply} {Inv : s.World → Type 0}
    (f : Fulfils s C Inv) where
  -- One execution: the invariant holds after it, and it ended as the contract says.
  pub run-Inv :
      {Post : Settled Exn A → Type 0} {p : Prog Call Reply Exn A}
      → Safe C Post p
      → (input : ℕ → s.Input) (n : ℕ) (w : s.World) → Inv w
      → Post (run s input n p w).0 × Inv (run s input n p w).1
  unfolding run
  run-Inv (safe_ret a h) input n w inv = (h, inv)
  run-Inv (safe_throw e h) input n w inv = (h, inv)
  run-Inv (safe_op c k h ih) input n w inv =
      run-Inv (ih _ (f.answer (input n) c w inv h)) input (suc n) _ (f.keep (input n) c w inv h)

-- The executions under way, and the state of the services that they share.
pub record System {Call : Type 0} (Reply : Call → Type 0) (Exn A World : Type 0) : Type 0 where
  pub world : World
  pub running : List (Prog Call Reply Exn A)

module _ {Call : Type 0} {Reply : Call → Type 0} {Exn : Type 0} {A : Type 0}
    (s : Services Call Reply) (Starts : Prog Call Reply Exn A → Type 0)
    (Other : s.World → s.World → Type 0) where
  -- What can happen next: an execution starts, makes its next call, or stops for good (it ended or
  -- its process died); or another actor changes the services.
  pub data Step : System Reply Exn A s.World → System Reply Exn A s.World → Type 0 where
    start :
        (w : s.World) (ps : List (Prog Call Reply Exn A)) (p : Prog Call Reply Exn A)
        → Starts p
        → Step (record { world = w; running = ps }) (record { world = w; running = p ∷ ps })
    advance :
        (w : s.World) (ps qs : List (Prog Call Reply Exn A)) (c : Call)
        (k : Option (Reply c) → Prog Call Reply Exn A) (i : s.Input)
        → Step
            (record { world = w; running = ps ++ op c k ∷ qs })
            (record { world = (s.handle i c w).1; running = ps ++ k (s.handle i c w).0 ∷ qs })
    stop :
        (w : s.World) (ps qs : List (Prog Call Reply Exn A)) (p : Prog Call Reply Exn A)
        → Step
            (record { world = w; running = ps ++ p ∷ qs })
            (record { world = w; running = ps ++ qs })
    other :
        (w w' : s.World) (ps : List (Prog Call Reply Exn A))
        → Other w w'
        → Step (record { world = w; running = ps }) (record { world = w'; running = ps })

  pub data Reach (a : System Reply Exn A s.World) : System Reply Exn A s.World → Type 0 where
    here : Reach a a
    next : {b c : System Reply Exn A s.World} → Reach a b → Step b c → Reach a c

module _ {Call : Type 0} {Reply : Call → Type 0} {Exn : Type 0} {A : Type 0}
    (s : Services Call Reply) (Starts : Prog Call Reply Exn A → Type 0)
    (Other : s.World → s.World → Type 0) where
  -- An execution that nothing disturbs.
  finish-Reach :
      {a : System Reply Exn A s.World} (input : ℕ → s.Input) (n : ℕ) (p : Prog Call Reply Exn A)
      (w : s.World)
      → Reach s Starts Other a (record { world = w; running = p ∷ [] })
      → Reach s Starts Other a (record { world = (run s input n p w).1; running = [] })
  unfolding run
  finish-Reach input n (ret x) w r = next r (stop w [] [] (ret x))
  finish-Reach input n (throw e) w r = next r (stop w [] [] (throw e))
  finish-Reach input n (op c k) w r =
      finish-Reach input (suc n) (k (s.handle (input n) c w).0) _
        (next r (advance w [] [] c k (input n)))

  pub run-Reach :
      (input : ℕ → s.Input) (p : Prog Call Reply Exn A) (w : s.World)
      → Starts p
      → Reach s Starts Other
          (record { world = w; running = [] })
          (record { world = (run s input 0 p w).1; running = [] })
  run-Reach input p w h = finish-Reach input 0 p w (next here (start w [] p h))

module _ {Call : Type 0} {Reply : Call → Type 0} {Exn : Type 0} {A : Type 0}
    (s : Services Call Reply) {C : Contract Call Reply} {Inv : s.World → Type 0}
    (f : Fulfils s C Inv) (Starts : Prog Call Reply Exn A → Type 0)
    (Other : s.World → s.World → Type 0) (Post : Settled Exn A → Type 0)
    (starts : (p : Prog Call Reply Exn A) → Starts p → Safe C Post p)
    (others : (w w' : s.World) → Other w w' → Inv w → Inv w') where
  -- The invariant holds, and the executions under way keep their contract.
  abbrev Sound : System Reply Exn A s.World → Type 0
  Sound a = Inv a.world × All (Safe C Post) a.running

  Step-Sound : {a b : System Reply Exn A s.World} → Step s Starts Other a b → Sound a → Sound b
  Step-Sound (start w ps p h) (inv, all) = (inv, (starts p h, all))
  Step-Sound (advance w ps qs c k i) (inv, all) =
      let rest = All-right (Safe C Post) ps _ all in
      let now = Safe-Next C rest.0 in
      (
        f.keep i c w inv now.0,
        All-append (Safe C Post) ps _ (All-left (Safe C Post) ps _ all)
            (now.1 _ (f.answer i c w inv now.0), rest.1),
      )
  Step-Sound (stop w ps qs p) (inv, all) = (
    inv,
    All-append (Safe C Post) ps qs (All-left (Safe C Post) ps _ all)
        (All-right (Safe C Post) ps _ all).1,
  )
  Step-Sound (other w w' ps h) (inv, all) = (others w w' h inv, all)

  Reach-Sound : {a b : System Reply Exn A s.World} → Sound a → Reach s Starts Other a b → Sound b
  Reach-Sound h here = h
  Reach-Sound h (next r st) = Step-Sound st (Reach-Sound h r)

  -- From services in order and no execution under way, the invariant holds for ever.
  pub Reach-Inv :
      (w : s.World) {b : System Reply Exn A s.World}
      → Inv w
      → Reach s Starts Other (record { world = w; running = [] }) b
      → Inv b.world
  Reach-Inv w inv r = (Reach-Sound (inv, tt) r).0
