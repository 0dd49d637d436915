-- ===== src/Engine/Register.antt =====
-- What the list of engines holds.
use mlib.Prelude.{
  ◌≡◌, refl, inl, inr, Bool-cases, true, false, Option, none, some, List, [], ◌∷◌, ◌++◌, All, arith,
  if◌then◌else◌,
}
use mlib.Memory.{ok, failed}
use mlib.Lists.{ListHead, IsListHead}
use mlib.Engine.{Engine, Engines, any_caps, is_set, checked_caps, engine_register}

-- A name, a capability, and the function of each capability.
pub record IsEngine (e : Engine) : Type 0 where
  pub named : is_set e.name ≡ true
  pub capable : any_caps e.caps ≡ true
  pub audio : e.caps.audio ≡ true → is_set e.play_audio ≡ true
  pub video : e.caps.video ≡ true → is_set e.play_video ≡ true

-- The current engine is the first that was registered.
abbrev pub first : List Engine → Option Engine
first [] = none
first (e ∷ es) = some e

pub record IsEngines (es : Engines) : Type 0 where
  pub all : All IsEngine es.engines
  pub current_first : es.current ≡ first es.engines

All-append :
    (es : List Engine) (e : Engine) → All IsEngine es → IsEngine e → All IsEngine (es ++ e ∷ [])
All-append [] e h k = (k, tt)
All-append (x ∷ es) e h k = (h.0, All-append es e h.1 k)

first-append :
    (es : List Engine) (e : Engine)
    → first (es ++ e ∷ []) ≡ (if is_set (first es) then first es else some e)
first-append [] e = refl
first-append (x ∷ es) e = refl

checked-IsEngine :
    (engine : Engine)
    → is_set engine.name ≡ true
    → any_caps (checked_caps engine) ≡ true
    → IsEngine (record engine { caps = checked_caps engine })
unfolding checked_caps
checked-IsEngine engine n c = record {
  named = n;
  capable = c;
  audio = λ e. ground arith;
  video = λ e. ground arith;
}

abbrev checked : Engine → Engine
checked engine = record engine { caps = checked_caps engine }

-- What a registered engine is put behind.
abbrev joined : Engine → Engines → Engines
joined engine es = record {
  engines = es.engines ++ checked engine ∷ [];
  current = if is_set es.current then es.current else some (checked engine);
}

joined-IsEngines :
    (engine : Engine) (es : Engines)
    → IsEngines es
    → IsEngine (checked engine)
    → IsEngines (joined engine es)
joined-IsEngines engine es v e = record {
  all = All-append es.engines (checked engine) v.all e;
  current_first = rw (first-append es.engines (checked engine), v.current_first) refl;
}

module _ {h : ListHead} (k : IsListHead h) where
  module _ (engine : Engine) (es : Engines) where
    register_nameless :
        is_set engine.name ≡ false → engine_register h engine es ≡ (failed, engine, es)
    unfolding engine_register
    register_nameless n = rw n refl

    register_incapable :
        is_set engine.name ≡ true
        → any_caps (checked_caps engine) ≡ false
        → engine_register h engine es ≡ (failed, checked engine, es)
    unfolding engine_register
    register_incapable n c = rw (n, c) refl

    -- An engine with a name and a capability that has its function is taken.
    pub engine_register-joined :
        is_set engine.name ≡ true
        → any_caps (checked_caps engine) ≡ true
        → engine_register h engine es ≡ (ok, checked engine, joined engine es)
    unfolding engine_register
    engine_register-joined n c = rw (n, c, k.adds_before es.engines (checked engine) []) refl

    -- If every registered engine has a name, a capability and the function of each of its
    -- capabilities, and the current engine is the first registered, then this holds again after a
    -- registration, taken or refused. The list inserts as include/mlib/list.h documents.
    pub engine_register-IsEngines : IsEngines es → IsEngines (engine_register h engine es).2
    engine_register-IsEngines v = elim (Bool-cases (is_set engine.name)) [
      | inr n ↦ rw (register_nameless n) v
      | inl n ↦ elim (Bool-cases (any_caps (checked_caps engine))) [
        | inr c ↦ rw (register_incapable n c) v
        | inl c ↦
            rw (engine_register-joined n c)
              (joined-IsEngines engine es v (checked-IsEngine engine n c))
      ]
    ]
