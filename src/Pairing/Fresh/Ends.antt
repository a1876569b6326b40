-- ===== src/Pairing/Fresh/Ends.antt =====
-- What holds at the end of a coroutine, and how it is followed through `await`, `except` and a reply.
use home_assistant_bluetooth.Prelude.{◌≡◌, ◌⊎◌, inl, inr, refl, Result, ok, err}
use home_assistant_bluetooth.Pairing.Session.{
  Failure, Reply, success, failure, Session, Coroutine, continue, recover,
}

-- What holds where a coroutine returns, and where it raises.
abbrev pub Ends :
    {A : Type 0}
    → (A → Session → Type 0)
    → (Failure → Session → Type 0)
    → Result Failure A × Session
    → Type 0
Ends Q R (ok a, s) = Q a s
Ends Q R (err e, s) = R e s

pub continue-Ends :
    {A B : Type 0} (P : A → Session → Type 0) (Q : B → Session → Type 0)
    (R : Failure → Session → Type 0) (f : A → Coroutine B) (r : Result Failure A × Session)
    → Ends P R r
    → ((a : A) (s : Session) → P a s → Ends Q R (f a s))
    → Ends Q R (continue f r)
continue-Ends P Q R f (ok a, s) p k = k a s p
continue-Ends P Q R f (err e, s) p k = p

pub recover-Ends :
    {A : Type 0} (Q : A → Session → Type 0) (S R : Failure → Session → Type 0)
    (handler : Failure → Coroutine A) (r : Result Failure A × Session)
    → Ends Q S r
    → ((e : Failure) (s : Session) → S e s → Ends Q R (handler e s))
    → Ends Q R (recover handler r)
recover-Ends Q S R handler (ok a, s) p k = p
recover-Ends Q S R handler (err e, s) p k = k e s p

pub Reply-cases : (p : Reply) → (p ≡ success) ⊎ ((f : Failure) × (p ≡ failure f))
Reply-cases success = inl refl
Reply-cases (failure f) = inr (f, refl)
