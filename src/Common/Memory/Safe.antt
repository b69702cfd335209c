-- ===== src/Common/Memory/Safe.antt =====
-- What an outcome promises: no access outside a buffer, and a condition on a result.
use simple_dns.Common.Tests.{if◌then◌else◌}
use simple_dns.Common.Lists.{Bytes, length, drop, length-take, length-drop}
use simple_dns.Common.Memory.{
  Outcome, ok, err, fault, ◌>>=◌, ◌>>◌, refuse_if, read, read_fits, slice, slice_fits, write,
  write_fits, length-patch,
}
use Prim.Native.Nat.{ℕ, ◌+◌, ◌<◌, ◌≤◌}
use mathlib.Core.Path.{◌≡◌, refl}
use mathlib.Core.Bool.{Bool, true, false}
use mathlib.Core.Option.{Option, none, some}
use mathlib.Core.List.{List, [], ◌∷◌}
use native.Mathlib.Omega.{arith}

abbrev pub Holds {ℓ} : {S : Type ℓ} → (S → Type 0) → Outcome S → Type 0
Holds P (ok s) = P s
Holds P err = Unit
Holds P fault = ⊥

-- No condition on a result.
abbrev pub Any {ℓ} : {S : Type ℓ} → S → Type 0
Any s = Unit

pub bind-Holds {ℓ κ} :
    {A : Type ℓ} {B : Type κ} (P : A → Type 0) (Q : B → Type 0) (m : Outcome A) (f : A → Outcome B)
    → Holds P m
    → ((a : A) → P a → Holds Q (f a))
    → Holds Q (m >>= f)
bind-Holds P Q (ok a) f h k = k a h
bind-Holds P Q err f h k = tt
bind-Holds P Q fault f h k = h

pub if-Holds {ℓ} :
    {S : Type ℓ} (P : S → Type 0) (b : Bool) (l r : Outcome S)
    → (b ≡ true → Holds P l)
    → (b ≡ false → Holds P r)
    → Holds P (if b then l else r)
if-Holds P true l r h k = h refl
if-Holds P false l r h k = k refl

pub elim-Holds {ℓ} :
    {S : Type ℓ} (P : S → Type 0) (b : Bool) (l r : Outcome S)
    → (b ≡ true → Holds P l)
    → (b ≡ false → Holds P r)
    → Holds P (elim b [ true ↦ l | false ↦ r ])
elim-Holds P true l r h k = h refl
elim-Holds P false l r h k = k refl

pub refused-Holds {ℓ} :
    {S : Type ℓ} (b : Bool) (P : S → Type 0) (m : Outcome S)
    → (b ≡ false → Holds P m)
    → Holds P (refuse_if b >> m)
refused-Holds true P m h = tt
refused-Holds false P m h = h refl

pub read-Any : (b : Bytes) (o : ℕ) → o < length b → Holds Any (read b o)
read-Any b o h = let (v, r) = read_fits b o h in rw r tt

pub slice-Holds : (b : Bytes) (o n : ℕ) → o + n ≤ length b → Holds (λ v. length v ≡ n) (slice b o n)
slice-Holds b o n h =
    rw (slice_fits b o n h) (omega (arith, length-take n (drop o b), length-drop o b))

pub write-Holds :
    (b : Bytes) (o : ℕ) (vs : Bytes)
    → o + length vs ≤ length b
    → Holds (λ v. length v ≡ length b) (write b o vs)
write-Holds b o vs h = rw (write_fits b o vs h) (length-patch b o vs h)

-- A success is promised as well.
abbrev pub Gives {ℓ} : {S : Type ℓ} → (S → Type 0) → Outcome S → Type 0
Gives P (ok s) = P s
Gives P err = ⊥
Gives P fault = ⊥

pub bind-Gives {ℓ κ} :
    {A : Type ℓ} {B : Type κ} (P : A → Type 0) (Q : B → Type 0) (m : Outcome A) (f : A → Outcome B)
    → Gives P m
    → ((a : A) → P a → Gives Q (f a))
    → Gives Q (m >>= f)
bind-Gives P Q (ok a) f h k = k a h
bind-Gives P Q err f h k = absurd h
bind-Gives P Q fault f h k = absurd h

pub if-Gives {ℓ} :
    {S : Type ℓ} (P : S → Type 0) (b : Bool) (l r : Outcome S)
    → (b ≡ true → Gives P l)
    → (b ≡ false → Gives P r)
    → Gives P (if b then l else r)
if-Gives P true l r h k = h refl
if-Gives P false l r h k = k refl

pub option-Gives {ℓ κ} :
    {A : Type ℓ} {S : Type κ} (P : S → Type 0) (o : Option A) (l : Outcome S) (f : A → Outcome S)
    → Gives P l
    → ((a : A) → o ≡ some a → Gives P (f a))
    → Gives P (elim o [ none ↦ l | some a ↦ f a ])
option-Gives P none l f h k = h
option-Gives P (some a) l f h k = k a refl

pub list-Gives {ℓ κ} :
    {A : Type ℓ} {S : Type κ} (P : S → Type 0) (xs : List A) (l : Outcome S)
    (f : A → List A → Outcome S)
    → Gives P l
    → ((x : A) (rest : List A) → Gives P (f x rest))
    → Gives P (elim xs [ [] ↦ l | x ∷ rest ↦ f x rest ])
list-Gives P [] l f h k = h
list-Gives P (x ∷ rest) l f h k = k x rest

pub recover-Gives {ℓ κ} :
    {A : Type ℓ} {S : Type κ} (P : S → Type 0) (m : Outcome A) (l : Outcome S) (f : A → Outcome S)
    → Holds Any m
    → Gives P l
    → ((a : A) → Gives P (f a))
    → Gives P (elim m [ err ↦ l | fault ↦ fault | ok a ↦ f a ])
recover-Gives P (ok a) l f safe h k = k a
recover-Gives P err l f safe h k = h
recover-Gives P fault l f safe h k = safe
