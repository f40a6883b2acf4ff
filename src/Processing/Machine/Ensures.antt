-- ===== src/Processing/Machine/Ensures.antt =====
-- Total correctness of actions, as a triple with a postcondition for each end. Its assertions are
-- about the part of the machine that the clock, the hooks and the policies cannot change.
use modern_data_platform.Prelude.{
  String, List, Bool, true, false, ◌≡◌, refl, sym, ◌∙◌, if◌then◌else◌,
}
use mathlib.Core.Path.{subst}
use modern_data_platform.Processing.Outcome.{
  Exn, Reply, answer, failure, Outcome, returned, raised, out_of_fuel, outcome, Ends,
}
use modern_data_platform.Processing.Core.Results.{StageResult}
use modern_data_platform.Processing.Core.Stage.{StageVars, Effect}
use modern_data_platform.Processing.Machine.{
  Machine, Action, pure, raise, lift, modify, perform, continue, ◌>>=◌,
}

pub record Core : Type 0 where
  pub vars : StageVars
  pub stage_results : List StageResult
  pub calls : List String

abbrev pub core : {W : Type 0} → Machine W → Core
core m = record { vars = m.vars; stage_results = m.stage_results; calls = m.calls }

abbrev pub Post :
    {A : Type 0} → (A → Core → Type 0) → (Exn → Core → Type 0) → Outcome A → Core → Type 0
Post Q R (returned a) c = Q a c
Post Q R (raised e) c = R e c
Post Q R out_of_fuel c = ⊥

-- From `P`, the action ends: it returns in `Q` or raises in `R`.
pub record Ensures {W A : Type 0} (P : Core → Type 0) (k : Action W A) (Q : A → Core → Type 0)
    (R : Exn → Core → Type 0) : Type 0 where
  pub at : (m : Machine W) → P (core m) → Post Q R (k m).0 (core (k m).1)

-- The action ends, and leaves that part of the machine alone.
pub record Frames {W A : Type 0} (k : Action W A) : Type 0 where
  pub same : (m : Machine W) → core (k m).1 ≡ core m
  pub ends : (m : Machine W) → Ends (k m).0

module _ {A : Type 0} where
  Post-of_Ends :
      (P : Core → Type 0) (o : Outcome A) (c d : Core)
      → d ≡ c
      → Ends o
      → P c
      → Post (λ _. P) (λ _. P) o d
  Post-of_Ends P (returned a) c d e h p = subst P (sym e) p
  Post-of_Ends P (raised x) c d e h p = subst P (sym e) p
  Post-of_Ends P out_of_fuel c d e h p = absurd h

  Post-mono :
      (Q Q' : A → Core → Type 0) (R R' : Exn → Core → Type 0) (o : Outcome A) (c : Core)
      → ((a : A) → Q a c → Q' a c)
      → ((e : Exn) → R e c → R' e c)
      → Post Q R o c
      → Post Q' R' o c
  Post-mono Q Q' R R' (returned a) c q r h = q a h
  Post-mono Q Q' R R' (raised e) c q r h = r e h
  Post-mono Q Q' R R' out_of_fuel c q r h = h

  pub outcome-Ends : (r : Reply A) → Ends (outcome r)
  outcome-Ends (answer a) = tt
  outcome-Ends (failure e) = tt

module _ {W A : Type 0} where
  -- What is left alone keeps every assertion.
  pub Ensures-frame :
      (P : Core → Type 0) (k : Action W A) → Frames k → Ensures P k (λ _. P) (λ _. P)
  Ensures-frame P k f = record {
    at = λ m p. Post-of_Ends P (k m).0 (core m) (core (k m).1) (f.same m) (f.ends m) p;
  }

  pub Ensures-weaken :
      {P P' : Core → Type 0} {Q Q' : A → Core → Type 0} {R R' : Exn → Core → Type 0}
      (k : Action W A)
      → ((c : Core) → P' c → P c)
      → ((a : A) (c : Core) → Q a c → Q' a c)
      → ((e : Exn) (c : Core) → R e c → R' e c)
      → Ensures P k Q R
      → Ensures P' k Q' R'
  Ensures-weaken {P} {P'} {Q} {Q'} {R} {R'} k p q r h = record {
    at = λ m x.
        Post-mono Q Q' R R' (k m).0 (core (k m).1) (λ a. q a (core (k m).1))
          (λ e. r e (core (k m).1)) (h.at m (p (core m) x));
  }

  pub Ensures-pure :
      (a : A) (Q : A → Core → Type 0) (R : Exn → Core → Type 0) → Ensures {W = W} (Q a) (pure a) Q R
  Ensures-pure a Q R = record { at = λ m p. p }

  pub Ensures-raise :
      (e : Exn) (Q : A → Core → Type 0) (R : Exn → Core → Type 0)
      → Ensures {W = W} (R e) (raise e) Q R
  Ensures-raise e Q R = record { at = λ m p. p }

  -- A fact that the assertion gives may be used to choose the proof.
  pub Ensures-given :
      {P : Core → Type 0} {Q : A → Core → Type 0} {R : Exn → Core → Type 0} {F : Type 0}
      (k : Action W A)
      → ((c : Core) → P c → F)
      → (F → Ensures P k Q R)
      → Ensures P k Q R
  Ensures-given k fact h = record { at = λ m p. (h (fact (core m) p)).at m p }

  -- The variables may be named.
  pub Ensures-vars :
      {P : Core → Type 0} {Q : A → Core → Type 0} {R : Exn → Core → Type 0} (k : Action W A)
      → ((V : StageVars) → Ensures (λ d. (d.vars ≡ V) × P d) k Q R)
      → Ensures P k Q R
  Ensures-vars k h = record { at = λ m p. (h m.vars).at m (refl, p) }

  pub Ensures-if :
      (b : Bool) {P : Core → Type 0} {Q : A → Core → Type 0} {R : Exn → Core → Type 0}
      (k l : Action W A)
      → (b ≡ true → Ensures P k Q R)
      → (b ≡ false → Ensures P l Q R)
      → Ensures P (if b then k else l) Q R
  Ensures-if true k l hk hl = hk refl
  Ensures-if false k l hk hl = hl refl

module _ {W A B : Type 0} where
  Post-continue :
      (Q : A → Core → Type 0) (Q' : B → Core → Type 0) (R : Exn → Core → Type 0)
      (f : A → Action W B)
      → ((a : A) → Ensures (Q a) (f a) Q' R)
      → (o : Outcome A) (m : Machine W) → Post Q R o (core m)
      → Post Q' R (continue o f m).0 (core (continue o f m).1)
  Post-continue Q Q' R f h (returned a) m p = (h a).at m p
  Post-continue Q Q' R f h (raised e) m p = p
  Post-continue Q Q' R f h out_of_fuel m p = absurd p

  -- The rule for a bind: `Q` holds between the two actions.
  pub Ensures-bind :
      {P : Core → Type 0} (Q : A → Core → Type 0) {Q' : B → Core → Type 0} {R : Exn → Core → Type 0}
      (k : Action W A) (f : A → Action W B)
      → Ensures P k Q R
      → ((a : A) → Ensures (Q a) (f a) Q' R)
      → Ensures P (k >>= f) Q' R
  unfolding ◌>>=◌
  Ensures-bind Q {Q'} {R} k f hk hf = record {
    at = λ m p. Post-continue Q Q' R f hf (k m).0 (k m).1 (hk.at m p);
  }

  -- An action that is left alone may stand first.
  pub Ensures-after :
      {P : Core → Type 0} {Q' : B → Core → Type 0} {R : Exn → Core → Type 0} (k : Action W A)
      (f : A → Action W B)
      → Frames k
      → ((e : Exn) (c : Core) → P c → R e c)
      → ((a : A) → Ensures P (f a) Q' R)
      → Ensures P (k >>= f) Q' R
  Ensures-after {P} {Q'} {R} k f frame ex hf =
      Ensures-bind (λ _. P) k f
        (Ensures-weaken k (λ c p. p) (λ a c p. p) ex (Ensures-frame P k frame)) hf

  continue-same :
      (f : A → Action W B)
      → ((a : A) → Frames (f a))
      → (o : Outcome A) (m : Machine W) → core (continue o f m).1 ≡ core m
  continue-same f h (returned a) m = (h a).same m
  continue-same f h (raised e) m = refl
  continue-same f h out_of_fuel m = refl

  continue-Ends :
      (f : A → Action W B)
      → ((a : A) → Frames (f a))
      → (o : Outcome A) (m : Machine W) → Ends o
      → Ends (continue o f m).0
  continue-Ends f h (returned a) m e = (h a).ends m
  continue-Ends f h (raised x) m e = tt
  continue-Ends f h out_of_fuel m e = e

  pub Frames-bind :
      (k : Action W A) (f : A → Action W B) → Frames k → ((a : A) → Frames (f a)) → Frames (k >>= f)
  unfolding ◌>>=◌
  Frames-bind k f hk hf = record {
    same = λ m. continue-same f hf (k m).0 (k m).1 ∙ hk.same m;
    ends = λ m. continue-Ends f hf (k m).0 (k m).1 (hk.ends m);
  }

module _ {W A : Type 0} where
  pub Frames-pure : (a : A) → Frames {W = W} (pure a)
  Frames-pure a = record { same = λ m. refl; ends = λ m. tt }

  pub Frames-raise : (e : Exn) → Frames {W = W} {A = A} (raise e)
  Frames-raise e = record { same = λ m. refl; ends = λ m. tt }

  pub Frames-lift : (o : Outcome A) → Ends o → Frames {W = W} (lift o)
  Frames-lift o h = record { same = λ m. refl; ends = λ m. h }

  pub Frames-if : (b : Bool) (k l : Action W A) → Frames k → Frames l → Frames (if b then k else l)
  Frames-if true k l hk hl = hk
  Frames-if false k l hk hl = hl

  pub Frames-perform : (f : Effect W A) → Frames (perform f)
  unfolding perform
  Frames-perform f = record {
    same = λ m. refl;
    ends = λ m. outcome-Ends (f m.context m.vars m.world).0;
  }

module _ {W : Type 0} where
  -- A write to the part of the machine that the assertions are about.
  pub Ensures-modify :
      (P : Core → Type 0) (f : Machine W → Machine W) (Q : Core → Type 0) (R : Exn → Core → Type 0)
      → ((m : Machine W) → P (core m) → Q (core (f m)))
      → Ensures P (modify f) (λ _. Q) R
  Ensures-modify P f Q R h = record { at = h }

pub ruleset frame_rules =
    (Frames-pure, Frames-raise, Frames-lift, Frames-if, Frames-perform, Frames-bind)
