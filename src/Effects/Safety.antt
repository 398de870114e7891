-- ===== src/Effects/Safety.antt =====
-- Contracts: which calls a program makes, whatever the services answer, and how it may end.
use matrix_agent_workspace.Prelude.{Bool, true, false, Option, ◌≡◌, refl, if◌then◌else◌}
use matrix_agent_workspace.Effects.Syntax.{
  Prog, ret, throw, op, Settled, fulfilled, rejected, ◌>>=◌, settle,
}

-- The calls that are allowed, and the answers that the services give to them.
pub record Contract (Call : Type 0) (Reply : Call → Type 0) : Type 1 where
  pub allowed : Call → Type 0
  pub answers : (c : Call) → Option (Reply c) → Type 0

module _ {Call : Type 0} {Reply : Call → Type 0} {Exn : Type 0} where
  -- Every call of the program is allowed, and it ends as `Post` says.
  pub data Safe (C : Contract Call Reply) {A : Type 0} (Post : Settled Exn A → Type 0)
      : Prog Call Reply Exn A → Type 0 where
    safe_ret : (a : A) → Post (fulfilled a) → Safe C Post (ret a)
    safe_throw : (e : Exn) → Post (rejected e) → Safe C Post (throw e)
    safe_op :
        (c : Call) (k : Option (Reply c) → Prog Call Reply Exn A)
        → C.allowed c
        → ((r : Option (Reply c)) → C.answers c r → Safe C Post (k r))
        → Safe C Post (op c k)

-- The program never throws, and its value is in `P`.
abbrev pub Returns : {Exn A : Type 0} → (A → Type 0) → Settled Exn A → Type 0
Returns P (fulfilled r) = P r
Returns P (rejected e) = ⊥

module _ {Call : Type 0} {Reply : Call → Type 0} {Exn : Type 0} (C : Contract Call Reply) where
  pub Safe-bind :
      {A B : Type 0} {Post : Settled Exn A → Type 0} {Post' : Settled Exn B → Type 0}
      {p : Prog Call Reply Exn A} (f : A → Prog Call Reply Exn B)
      → Safe C Post p
      → ((a : A) → Post (fulfilled a) → Safe C Post' (f a))
      → ((e : Exn) → Post (rejected e) → Post' (rejected e))
      → Safe C Post' (p >>= f)
  Safe-bind f (safe_ret a h) go stop = go a h
  Safe-bind f (safe_throw e h) go stop = safe_throw e (stop e h)
  Safe-bind f (safe_op c k h ih) go stop = safe_op c _ h (λ r a. Safe-bind f (ih r a) go stop)

  pub Safe-weaken :
      {A : Type 0} {Post Post' : Settled Exn A → Type 0} {p : Prog Call Reply Exn A}
      → Safe C Post p
      → ((r : Settled Exn A) → Post r → Post' r)
      → Safe C Post' p
  Safe-weaken (safe_ret a h) w = safe_ret a (w _ h)
  Safe-weaken (safe_throw e h) w = safe_throw e (w _ h)
  Safe-weaken (safe_op c k h ih) w = safe_op c k h (λ r a. Safe-weaken (ih r a) w)

  pub Safe-if :
      {A : Type 0} {Post : Settled Exn A → Type 0} (b : Bool) {p q : Prog Call Reply Exn A}
      → (b ≡ true → Safe C Post p)
      → (b ≡ false → Safe C Post q)
      → Safe C Post (if b then p else q)
  Safe-if true hp hq = hp refl
  Safe-if false hp hq = hq refl

  pub Safe-settle :
      {A : Type 0} {Post : Settled Exn A → Type 0} {p : Prog Call Reply Exn A}
      → Safe C Post p
      → Safe C (Returns Post) (settle p)
  Safe-settle (safe_ret a h) = safe_ret _ h
  Safe-settle (safe_throw e h) = safe_ret _ h
  Safe-settle (safe_op c k h ih) = safe_op c _ h (λ r a. Safe-settle (ih r a))

  -- What a contract says of the next call.
  abbrev pub Next : {A : Type 0} → (Settled Exn A → Type 0) → Prog Call Reply Exn A → Type 0
  Next Post (ret a) = Post (fulfilled a)
  Next Post (throw e) = Post (rejected e)
  Next Post (op c k) = C.allowed c × ((r : Option (Reply c)) → C.answers c r → Safe C Post (k r))

  pub Safe-Next :
      {A : Type 0} {Post : Settled Exn A → Type 0} {p : Prog Call Reply Exn A}
      → Safe C Post p
      → Next Post p
  Safe-Next (safe_ret a h) = h
  Safe-Next (safe_throw e h) = h
  Safe-Next (safe_op c k h ih) = (h, ih)

-- Nothing is said of the value.
abbrev pub Any : {A : Type 0} → A → Type 0
Any a = Unit {0}

-- The value that the program returns is in `P`; it may throw.
abbrev pub Ends : {Exn A : Type 0} → (A → Type 0) → Settled Exn A → Type 0
Ends P (fulfilled r) = P r
Ends P (rejected e) = Unit

module _ {Call : Type 0} {Reply : Call → Type 0} {Exn : Type 0} (C : Contract Call Reply) where
  pub Safe-then :
      {A B : Type 0} {Q : A → Type 0} {P : B → Type 0} {p : Prog Call Reply Exn A}
      {f : A → Prog Call Reply Exn B}
      → Safe C (Ends Q) p
      → ((a : A) → Q a → Safe C (Ends P) (f a))
      → Safe C (Ends P) (p >>= f)
  Safe-then h go = Safe-bind C _ h go (λ e _. tt)

  pub Safe-settle_then :
      {A B : Type 0} {Q : A → Type 0} {P : B → Type 0} {p : Prog Call Reply Exn A}
      {f : Settled Exn A → Prog Call Reply Exn B}
      → Safe C (Ends Q) p
      → ((r : Settled Exn A) → Ends Q r → Safe C (Ends P) (f r))
      → Safe C (Ends P) (settle p >>= f)
  Safe-settle_then h go = Safe-bind C _ (Safe-settle C h) go (λ e _. tt)

-- A contract that allows more calls, and expects no more of the answers.
pub Safe-relax :
    {Call : Type 0} {Reply : Call → Type 0} {Exn A : Type 0} (C C' : Contract Call Reply)
    {Post : Settled Exn A → Type 0} {p : Prog Call Reply Exn A}
    → ((c : Call) → C.allowed c → C'.allowed c)
    → ((c : Call) (r : Option (Reply c)) → C'.answers c r → C.answers c r)
    → Safe C Post p
    → Safe C' Post p
Safe-relax C C' more less (safe_ret a h) = safe_ret a h
Safe-relax C C' more less (safe_throw e h) = safe_throw e h
Safe-relax C C' more less (safe_op c k h ih) =
    safe_op c k (more c h) (λ r a. Safe-relax C C' more less (ih r (less c r a)))
