-- ===== src/Modules/Load.antt =====
-- What loading does to the list of modules.
use mlib.Prelude.{
  ◌≡◌, ◌≢◌, ◌⊎◌, inl, inr, refl, false, Option-cases, none, some, List, [], ◌∷◌, ◌++◌, ◌==◌, arith,
}
use mlib.Memory.{ok, failed}
use mlib.Text.{Text}
use mlib.Lists.{ListHead, IsListHead}
use mlib.Modules.{Module, Linker, Loaded, module_loaded, dlclose, add_module, load_module}

-- No description is in the list twice, and each has a name.
abbrev pub Distinct : List Module → Type 0
Distinct [] = Unit
Distinct (m ∷ ms) = (module_loaded m ms ≡ false) × (m.name ≢ none) × Distinct ms

loaded-append :
    (m n : Module) (ms : List Module)
    → module_loaded m ms ≡ false
    → (n.address == m.address) ≡ false
    → module_loaded m (ms ++ n ∷ []) ≡ false
unfolding module_loaded
loaded-append m n [] h k = ground arith
loaded-append m n (x ∷ ms) h k = ground (arith, loaded-append m n ms)

Distinct-append :
    (n : Module) (ms : List Module)
    → Distinct ms
    → module_loaded n ms ≡ false
    → n.name ≢ none
    → Distinct (ms ++ n ∷ [])
unfolding module_loaded
Distinct-append n [] h k named = (refl, named, tt)
Distinct-append n (m ∷ ms) h k named =
    (loaded-append m n ms h.0 (ground arith), h.1, Distinct-append n ms h.2 (ground arith) named)

module _ {h : ListHead} (k : IsListHead h) (os : Linker) where
  add_module-cases :
      (m : Module) (s : Loaded)
      → ((add_module h os m s).1.modules ≡ s.modules)
        ⊎ (((add_module h os m s).1.modules ≡ s.modules ++ m ∷ [])
            × (module_loaded m s.modules ≡ false)
            × (m.name ≢ none)
            × (m.init ≢ some failed)
            × ((add_module h os m s).0 ≡ ok))
  unfolding add_module dlclose
  add_module-cases m s = ground (arith, k.adds_before s.modules m [])

  load_module-cases :
      (path : Text) (s : Loaded)
      → ((load_module h os path s).1.modules ≡ s.modules)
        ⊎ ((m : Module) × ((load_module h os path s).1.modules ≡ s.modules ++ m ∷ [])
            × (module_loaded m s.modules ≡ false)
            × (m.name ≢ none)
            × (m.init ≢ some failed)
            × ((load_module h os path s).0 ≡ ok))
  unfolding load_module
  load_module-cases path s = elim (Option-cases (os.dlopen path)) [
    | inl e ↦ inl (ground arith)
    | inr (handle, e) ↦ elim (Option-cases (os.dlsym handle)) [
      | inl f ↦ inl (ground arith)
      | inr (m, f) ↦
          let named = record m { syms = handle } in
          let opened = record s { handles = handle ∷ s.handles } in
          let run : load_module h os path s ≡ add_module h os named opened = ground arith in
          rw run (elim (add_module-cases named opened) [
            | inl same ↦ inl same
            | inr more ↦ inr (named, more.0, more.1, more.2, more.3, more.4)
          ])
    ]
  ]

  -- If no module description is in the list of modules twice and every one has a name, this holds
  -- again after mlib_load_module, whatever the dynamic linker gives and the module's init returns.
  -- The list inserts as include/mlib/list.h documents.
  pub load_module-Distinct :
      (path : Text) (s : Loaded) → Distinct s.modules → Distinct (load_module h os path s).1.modules
  load_module-Distinct path s d = elim (load_module-cases path s) [
    | inl same ↦ rw same d
    | inr (m, more, fresh, named, ready, fine) ↦ rw more (Distinct-append m s.modules d fresh named)
  ]
