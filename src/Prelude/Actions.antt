-- ===== src/Prelude/Actions.antt =====
-- Code that reads and writes a state and can fail: the state is kept where it stood at the failure.

use fireactions.Prelude.Fallible.{Result, ok, err}

abbrev pub Act : Type 0 → Type 0 → Type 0 → Type 0
Act S E A = S → Result E A × S

abbrev pub then_act : {S E A B : Type 0} → Result E A × S → (A → Act S E B) → Result E B × S
then_act (ok a, s) f = f a s
then_act (err e, s) f = (err e, s)

infixl 5 ◌>>=◌ ◌>>◌
abbrev pub ◌>>=◌ : {S E A B : Type 0} → Act S E A → (A → Act S E B) → Act S E B
◌>>=◌ m f s = then_act (m s) f

abbrev pub ◌>>◌ : {S E B : Type 0} → Act S E (Unit {0}) → Act S E B → Act S E B
m >> k = m >>= λ _. k

abbrev pub pure : {S E A : Type 0} → A → Act S E A
pure a s = (ok a, s)

abbrev pub fail : {S E A : Type 0} → E → Act S E A
fail e s = (err e, s)

-- The error as a value, for code that looks at it.
abbrev pub attempt : {S E F A : Type 0} → Act S E A → Act S F (Result E A)
attempt m s = let (r, t) = m s in (ok r, t)

abbrev pub rewrap : {S E F A : Type 0} → (E → F) → Result E A × S → Result F A × S
rewrap f (ok a, s) = (ok a, s)
rewrap f (err e, s) = (err (f e), s)

-- The same error under a heading.
abbrev pub wrapping : {S E F A : Type 0} → (E → F) → Act S E A → Act S F A
wrapping f m s = rewrap f (m s)

-- What holds after an action: `F` of the state at a failure, `Q` of the value and the state otherwise.
abbrev pub Post {ℓ} : {S E A : Type 0} → (S → Type ℓ) → (A → S → Type ℓ) → Result E A × S → Type ℓ
Post F Q (ok a, s) = Q a s
Post F Q (err e, s) = F s

pub Post-then_act {ℓ} :
    {S E A B : Type 0} (F : S → Type ℓ) (Q : A → S → Type ℓ) (Q' : B → S → Type ℓ)
    (r : Result E A × S) (f : A → Act S E B)
    → Post F Q r
    → ((a : A) (s : S) → Q a s → Post F Q' (f a s))
    → Post F Q' (then_act r f)
Post-then_act F Q Q' (ok a, s) f h k = k a s h
Post-then_act F Q Q' (err e, s) f h k = h

pub Post-rewrap {ℓ} :
    {S E G A : Type 0} (F : S → Type ℓ) (Q : A → S → Type ℓ) (g : E → G) (r : Result E A × S)
    → Post F Q r
    → Post F Q (rewrap g r)
Post-rewrap F Q g (ok a, s) h = h
Post-rewrap F Q g (err e, s) h = h

-- The same, where what holds at a failure can name the error.
abbrev pub Ends {ℓ} :
    {S E A : Type 0} → (E → S → Type ℓ) → (A → S → Type ℓ) → Result E A × S → Type ℓ
Ends F Q (ok a, s) = Q a s
Ends F Q (err e, s) = F e s

pub Ends-then_act {ℓ} :
    {S E A B : Type 0} (F : E → S → Type ℓ) (Q : A → S → Type ℓ) (Q' : B → S → Type ℓ)
    (r : Result E A × S) (f : A → Act S E B)
    → Ends F Q r
    → ((a : A) (s : S) → Q a s → Ends F Q' (f a s))
    → Ends F Q' (then_act r f)
Ends-then_act F Q Q' (ok a, s) f h k = k a s h
Ends-then_act F Q Q' (err e, s) f h k = h

pub Ends-rewrap {ℓ} :
    {S E G A : Type 0} (F : G → S → Type ℓ) (Q : A → S → Type ℓ) (g : E → G) (r : Result E A × S)
    → Ends (λ e. F (g e)) Q r
    → Ends F Q (rewrap g r)
Ends-rewrap F Q g (ok a, s) h = h
Ends-rewrap F Q g (err e, s) h = h
