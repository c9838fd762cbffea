-- ===== src/Fat/Results.antt =====
-- Results of the functions that return an error number, and their sequence.
use light_loader.Common.{zero, suc, ℤ, pos, negsuc}
use light_loader.Common.Bytes.{Mem}

-- `fault` is an access outside an array, where the source has no defined behaviour.
pub data Result {ℓ} (A : Type ℓ) : Type ℓ where
  ok : A → Result A
  err : ℤ → Result A
  fault : Result A
  out_of_fuel : Result A

-- A computation over the state `D` of a device.
abbrev pub M : Type 0 → Type 0 → Type 0
M D A = D → D × Result A

-- What follows a result.
abbrev pub follow : {D A B : Type 0} → D × Result A → (A → M D B) → D × Result B
follow (d, ok a) f = f a d
follow (d, err e) f = (d, err e)
follow (d, fault) f = (d, fault)
follow (d, out_of_fuel) f = (d, out_of_fuel)

infixl 5 ◌>>=◌ ◌>>◌
abbrev pub ◌>>=◌ : {D A B : Type 0} → M D A → (A → M D B) → M D B
◌>>=◌ m f d = follow (m d) f

abbrev pub ◌>>◌ : {D B : Type 0} → M D (Unit {0}) → M D B → M D B
m >> k = m >>= λ _. k

abbrev pub pure : {D A : Type 0} → A → M D A
pure a d = (d, ok a)

abbrev pub fail : {D A : Type 0} → ℤ → M D A
fail e d = (d, err e)

-- The results of the device's operations: any number but 0 is an error.
abbrev pub lift_read : {D : Type 0} → D × Mem × ℤ → D × Result Mem
lift_read (d, b, pos zero) = (d, ok b)
lift_read (d, b, pos (suc n)) = (d, err (pos (suc n)))
lift_read (d, b, negsuc n) = (d, err (negsuc n))

abbrev pub lift_write : {D : Type 0} → D × ℤ → D × Result (Unit {0})
lift_write (d, pos zero) = (d, ok tt)
lift_write (d, pos (suc n)) = (d, err (pos (suc n)))
lift_write (d, negsuc n) = (d, err (negsuc n))

-- An error is replaced by another.
abbrev pub replace_error : {D A : Type 0} → ℤ → D × Result A → D × Result A
replace_error e (d, ok a) = (d, ok a)
replace_error e (d, err e') = (d, err e)
replace_error e (d, fault) = (d, fault)
replace_error e (d, out_of_fuel) = (d, out_of_fuel)

abbrev pub or_fail : {D A : Type 0} → ℤ → M D A → M D A
or_fail e m d = replace_error e (m d)

-- The run ends with a value that meets `P`, together with the state.
abbrev pub Ends : {D A : Type 0} → D × Result A → (D → A → Type 0) → Type 0
Ends (d, ok a) P = P d a
Ends (d, err e) P = ⊥
Ends (d, fault) P = ⊥
Ends (d, out_of_fuel) P = ⊥

-- What holds of every continuation holds behind a run that ends.
pub follow-Ends :
    {D A B : Type 0} (S : D × Result B → Type 0) (r : D × Result A) (f : A → M D B)
    (P : D → A → Type 0)
    → Ends r P
    → ((d : D) (a : A) → P d a → S (f a d))
    → S (follow r f)
follow-Ends S (d, ok a) f P h k = k d a h
follow-Ends S (d, err e) f P h k = absurd h
follow-Ends S (d, fault) f P h k = absurd h
follow-Ends S (d, out_of_fuel) f P h k = absurd h

pub Ends-follow :
    {D A B : Type 0} (r : D × Result A) (f : A → M D B) (P : D → A → Type 0) (Q : D → B → Type 0)
    → Ends r P
    → ((d : D) (a : A) → P d a → Ends (f a d) Q)
    → Ends (follow r f) Q
Ends-follow r f P Q h k = follow-Ends (λ q. Ends q Q) r f P h k

-- A weaker condition on the value and the state.
pub Ends-weaken :
    {D A : Type 0} (r : D × Result A) (P Q : D → A → Type 0)
    → Ends r P
    → ((d : D) (a : A) → P d a → Q d a)
    → Ends r Q
Ends-weaken (d, ok a) P Q h k = k d a h
Ends-weaken (d, err e) P Q h k = absurd h
Ends-weaken (d, fault) P Q h k = absurd h
Ends-weaken (d, out_of_fuel) P Q h k = absurd h

-- The run uses up its fuel.
abbrev pub Spins : {D A : Type 0} → D × Result A → Type 0
Spins (d, ok a) = ⊥
Spins (d, err e) = ⊥
Spins (d, fault) = ⊥
Spins (d, out_of_fuel) = Unit {0}

pub Spins-follow :
    {D A B : Type 0} (r : D × Result A) (f : A → M D B) (P : D → A → Type 0)
    → Ends r P
    → ((d : D) (a : A) → P d a → Spins (f a d))
    → Spins (follow r f)
Spins-follow r f P h k = follow-Ends Spins r f P h k

pub Spins-out : {D A B : Type 0} (r : D × Result A) (f : A → M D B) → Spins r → Spins (follow r f)
Spins-out (d, ok a) f h = absurd h
Spins-out (d, err e) f h = absurd h
Spins-out (d, fault) f h = absurd h
Spins-out (d, out_of_fuel) f h = tt

pub Ends-or_fail :
    {D A : Type 0} (e : ℤ) (r : D × Result A) (P : D → A → Type 0)
    → Ends r P
    → Ends (replace_error e r) P
Ends-or_fail e (d, ok a) P h = h
Ends-or_fail e (d, err e') P h = absurd h
Ends-or_fail e (d, fault) P h = absurd h
Ends-or_fail e (d, out_of_fuel) P h = absurd h
