-- ===== src/Go/Gives.antt =====
-- What holds of the value of a call, where it comes to one.
use gobmp.Prelude.{Bool, true, false, if◌then◌else◌}
use gobmp.Go.{Error, Res, ok, err, panic, spin, ◌>>=◌}

pub Gives : {A : Type 0} → (A → Type 0) → Res A → Type 0
Gives P (ok a) = P a
Gives P _ = Unit

pub Gives-any : {A : Type 0} (r : Res A) → Gives (λ a. Unit {0}) r
unfolding Gives
Gives-any (ok a) = tt
Gives-any (err e) = tt
Gives-any panic = tt
Gives-any spin = tt

pub Gives-bind :
    {A B : Type 0} (P : A → Type 0) (Q : B → Type 0) (r : Res A) (f : A → Res B)
    → Gives P r
    → ((a : A) → P a → Gives Q (f a))
    → Gives Q (r >>= f)
unfolding Gives
Gives-bind P Q (ok a) f h k = k a h
Gives-bind P Q (err e) f h k = tt
Gives-bind P Q panic f h k = tt
Gives-bind P Q spin f h k = tt

pub Gives-then :
    {A B : Type 0} (Q : B → Type 0) (r : Res A) (f : A → Res B)
    → ((a : A) → Gives Q (f a))
    → Gives Q (r >>= f)
Gives-then Q r f k = Gives-bind (λ a. Unit {0}) Q r f (Gives-any r) (λ a u. k a)

pub Gives-if :
    {A : Type 0} (Q : A → Type 0) (b : Bool) (x y : Res A)
    → Gives Q x
    → Gives Q y
    → Gives Q (if b then x else y)
unfolding Gives
Gives-if Q true x y h k = h
Gives-if Q false x y h k = k

pub Gives-ok : {A : Type 0} (P : A → Type 0) (a : A) → P a → Gives P (ok a)
unfolding Gives
Gives-ok P a h = h

pub Gives-err : {A : Type 0} (P : A → Type 0) (e : Error) → Gives P (err e)
unfolding Gives
Gives-err P e = tt

pub Gives-panic : {A : Type 0} (P : A → Type 0) → Gives P panic
unfolding Gives
Gives-panic P = tt

pub Gives-spin : {A : Type 0} (P : A → Type 0) → Gives P spin
unfolding Gives
Gives-spin P = tt

pub Gives-value : {A : Type 0} (P : A → Type 0) (a : A) → Gives P (ok a) → P a
unfolding Gives
Gives-value P a h = h
