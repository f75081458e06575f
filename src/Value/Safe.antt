-- ===== src/Value/Safe.antt =====
-- What a result of lib/value.c's model can be: no use of freed memory or of what was never
-- set, no signed overflow, and no end of the fuel.
use chammer.Value.{
  Result, ok, err, Fault, dangling, overrun, confused, panicked, endless, undefined, exhausted,
  ◌>>=◌,
}

abbrev pub Allowed : Fault → Type 0
Allowed dangling = ⊥
Allowed exhausted = ⊥
Allowed undefined = ⊥
Allowed _ = Unit

abbrev pub Ends : {A : Type 0} → (A → Type 0) → Result A → Type 0
Ends Q (ok a) = Q a
Ends Q (err e) = Allowed e

pub data Safe {A : Type 0} (Q : A → Type 0) (r : Result A) : Type 0 where
  safe : Ends Q r → Safe Q r

pub ends : {A : Type 0} {Q : A → Type 0} {r : Result A} → Safe Q r → Ends Q r
ends (safe h) = h

pub bind-Safe :
    {A B : Type 0} {Q : A → Type 0} {R : B → Type 0} {r : Result A} {f : A → Result B}
    → Safe Q r
    → ((a : A) → Q a → Safe R (f a))
    → Safe R (r >>= f)
bind-Safe {r = ok a} (safe h) k = k a h
bind-Safe {r = err dangling} (safe h) k = safe h
bind-Safe {r = err exhausted} (safe h) k = safe h
bind-Safe {r = err overrun} (safe h) k = safe h
bind-Safe {r = err confused} (safe h) k = safe h
bind-Safe {r = err panicked} (safe h) k = safe h
bind-Safe {r = err endless} (safe h) k = safe h
bind-Safe {r = err undefined} (safe h) k = safe h

pub mono-Safe :
    {A : Type 0} {Q R : A → Type 0} {r : Result A} → Safe Q r → ((a : A) → Q a → R a) → Safe R r
mono-Safe {r = ok a} (safe h) k = safe (k a h)
mono-Safe {r = err e} (safe h) k = safe h
