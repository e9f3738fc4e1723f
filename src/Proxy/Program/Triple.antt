-- ===== src/Proxy/Program/Triple.antt =====
-- Reasoning about the manager's programs step by step.
use agent_creance.Prelude.{Bool, true, false, ◌≡◌, refl, if◌then◌else◌}
use agent_creance.Proxy.Program.{
  Failure, World, Outcome, ok, err, M, continue, pure, ◌>>=◌, require, when,
}

-- `Q` holds of a success and `E` of a failure.
abbrev pub Sat :
    {A : Type 0} → (A → World → Type 0) → (Failure → World → Type 0) → Outcome A × World → Type 0
Sat Q E (ok a, w) = Q a w
Sat Q E (err e, w) = E e w

abbrev pub Triple :
    {A : Type 0}
    → (World → Type 0)
    → M A
    → (A → World → Type 0)
    → (Failure → World → Type 0)
    → Type 0
Triple P m Q E = (w : World) → P w → Sat Q E (m w)

Sat-continue :
    {A B : Type 0} (R : A → World → Type 0) (Q : B → World → Type 0) (E : Failure → World → Type 0)
    (f : A → M B) (r : Outcome A × World)
    → Sat R E r
    → ((a : A) → Triple (R a) (f a) Q E)
    → Sat Q E (continue f r)
Sat-continue R Q E f (ok a, w) h k = k a w h
Sat-continue R Q E f (err e, w) h k = h

-- A step, then what follows from each of its results.
pub bind-Triple :
    {A B : Type 0} (P : World → Type 0) (R : A → World → Type 0) (Q : B → World → Type 0)
    (E : Failure → World → Type 0) (m : M A) (f : A → M B)
    → Triple P m R E
    → ((a : A) → Triple (R a) (f a) Q E)
    → Triple P (m >>= f) Q E
bind-Triple P R Q E m f h k w p = Sat-continue R Q E f (m w) (h w p) k

-- A property of the world that each step keeps, whatever the result.
abbrev pub Keeps : {A : Type 0} → (World → Type 0) → M A → Type 0
Keeps P m = Triple P m (λ _. P) (λ _. P)

pub bind-Keeps :
    {A B : Type 0} (P : World → Type 0) (m : M A) (f : A → M B)
    → Keeps P m
    → ((a : A) → Keeps P (f a))
    → Keeps P (m >>= f)
bind-Keeps P m f = bind-Triple P (λ _. P) (λ _. P) (λ _. P) m f

pub require-Keeps : (P : World → Type 0) (b : Bool) (e : Failure) → Keeps P (require b e)
require-Keeps P true e w p = p
require-Keeps P false e w p = p

pub when-Keeps :
    (P : World → Type 0) (b : Bool) (m : M (Unit {0})) → (b ≡ true → Keeps P m) → Keeps P (when b m)
when-Keeps P true m h w p = h refl w p
when-Keeps P false m h w p = p

pub if-Keeps :
    {A : Type 0} (P : World → Type 0) (b : Bool) (m n : M A)
    → (b ≡ true → Keeps P m)
    → (b ≡ false → Keeps P n)
    → Keeps P (if b then m else n)
if-Keeps P true m n h k = h refl
if-Keeps P false m n h k = k refl

pub Sat-weaken :
    {A : Type 0} (Q R : A → World → Type 0) (E F : Failure → World → Type 0) (r : Outcome A × World)
    → ((a : A) (w : World) → Q a w → R a w)
    → ((e : Failure) (w : World) → E e w → F e w)
    → Sat Q E r
    → Sat R F r
Sat-weaken Q R E F (ok a, w) f g h = f a w h
Sat-weaken Q R E F (err e, w) f g h = g e w h

-- A last step that changes nothing.
pub Sat-pure :
    {A B : Type 0} (Q : A → World → Type 0) (R : B → World → Type 0) (E : Failure → World → Type 0)
    (r : Outcome A × World) (b : B)
    → ((a : A) (w : World) → Q a w → R b w)
    → Sat Q E r
    → Sat R E (continue (λ _. pure b) r)
Sat-pure Q R E (ok a, w) b f h = f a w h
Sat-pure Q R E (err e, w) b f h = h

pub bind_assoc :
    {A B C : Type 0} (m : M A) (f : A → M B) (g : B → M C) (w : World)
    → ((m >>= f) >>= g) w ≡ (m >>= λ a. f a >>= g) w
bind_assoc {A = A} m f g w = by_result (m w)
  where
    by_result :
        (r : Outcome A × World) → continue g (continue f r) ≡ continue (λ a x. continue g (f a x)) r
    by_result (ok a, x) = refl
    by_result (err e, x) = refl
