-- ===== src/Result/Fallible.antt =====
-- Chains of fallible code with no state: `?` on a `Result`.
use tungstenite_rs.Types.{Error}
use tungstenite_rs.Prelude.{Option, none, some, Bool, true, false, ◌≡◌, refl}
use tungstenite_rs.Result.{Result, ok, err, panic}

infixl 5 ◌>>=◌ ◌>>◌
abbrev pub ◌>>=◌ {ℓ κ} : {A : Type ℓ} {B : Type κ} → Result A → (A → Result B) → Result B
panic >>= next = panic
err e >>= next = err e
ok a >>= next = next a

abbrev pub ◌>>◌ {ℓ κ} : {A : Type ℓ} {B : Type κ} → Result A → Result B → Result B
m >> k = m >>= λ _. k

-- `ok_or`
abbrev pub ok_or {ℓ} : {A : Type ℓ} → Error → Option A → Result A
ok_or e none = err e
ok_or e (some a) = ok a

-- What holds of the value, if there is one.
abbrev pub Ensures {ℓ κ} : {A : Type ℓ} → (A → Type κ) → Result A → Type κ
Ensures P (ok a) = P a
Ensures P (err e) = Unit
Ensures P panic = Unit

pub bind-Ensures {ℓ κ μ ν} :
    {A : Type ℓ} {B : Type κ} (P : A → Type μ) (Q : B → Type ν) (r : Result A) (f : A → Result B)
    → Ensures P r
    → ((a : A) → P a → Ensures Q (f a))
    → Ensures Q (r >>= f)
bind-Ensures P Q (ok a) f h k = k a h
bind-Ensures P Q (err e) f h k = tt
bind-Ensures P Q panic f h k = tt

pub trivial-Ensures {ℓ} : {A : Type ℓ} (r : Result A) → Ensures (λ _. Unit {0}) r
trivial-Ensures (ok a) = tt
trivial-Ensures (err e) = tt
trivial-Ensures panic = tt

-- It ends with a value or an error, and does not panic.
abbrev pub is_total {ℓ} : {A : Type ℓ} → Result A → Bool
is_total (ok a) = true
is_total (err e) = true
is_total panic = false

pub bind_total {ℓ κ} :
    {A : Type ℓ} {B : Type κ} (r : Result A) (f : A → Result B)
    → is_total r ≡ true
    → ((a : A) → is_total (f a) ≡ true)
    → is_total (r >>= f) ≡ true
bind_total (ok a) f h k = k a
bind_total (err e) f h k = refl
bind_total panic f h k = absurd (cc)

pub ok_or_total {ℓ} : {A : Type ℓ} (e : Error) (o : Option A) → is_total (ok_or e o) ≡ true
ok_or_total e none = refl
ok_or_total e (some a) = refl

pub total-panic {ℓ} : {A : Type ℓ} (r : Result A) → is_total r ≡ true → ¬ (r ≡ panic)
total-panic (ok a) h e = cc
total-panic (err e') h e = cc
total-panic panic h e = absurd (cc)
