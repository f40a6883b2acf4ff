-- ===== src/Processing/Outcome/Replies.antt =====
-- One call after another, where each returns or raises.
use modern_data_platform.Prelude.{◌≡◌, refl}
use modern_data_platform.Processing.Outcome.{Reply, answer, failure}

infixl 5 ◌>>=◌
abbrev pub ◌>>=◌ : {A B : Type 0} → Reply A → (A → Reply B) → Reply B
answer a >>= f = f a
failure e >>= f = failure e

-- What a call returned that went on to return.
pub bind_answer :
    {A B : Type 0} (r : Reply A) (f : A → Reply B) (b : B)
    → (r >>= f) ≡ answer b
    → (a : A) × (r ≡ answer a) × (f a ≡ answer b)
bind_answer (answer a) f b h = (a, refl, h)
bind_answer (failure e) f b h = cc

-- the same, for a goal that has no part in it
pub by_answer :
    {A B T : Type 0} (r : Reply A) (f : A → Reply B) (b : B)
    → (r >>= f) ≡ answer b
    → ((a : A) → r ≡ answer a → f a ≡ answer b → T)
    → T
by_answer (answer a) f b h k = k a refl h
by_answer (failure e) f b h k = cc
