-- ===== src/Modules.antt =====
-- src/module.c: the modules that are loaded. `dlopen`, `dlsym` and what a module's `init` returns are
-- parameters.
pub mod Load
use mlib.Prelude.{
  ℕ, ◌+◌, Bool, true, false, not, Option, none, some, List, [], ◌∷◌, ◌++◌, ◌==◌, if◌then◌else◌,
}
use mlib.Memory.{Status, ok, failed}
use mlib.Text.{Text}
use mlib.Lists.{ListHead}
use mlib.Command.{Command}
use mlib.Engine.{Engine}

-- What a module registers: engines, and commands, whose functions stand at an address, in their
-- order.
pub record Registrations : Type 0 where
  pub engines : List Engine
  pub commands : List (Command ℕ)

abbrev pub nothing : Registrations
nothing = record { engines = []; commands = [] }

-- `struct mlib_module`, with the address it stands at. `init` is what the function returns where
-- there is one, `registers` is what it registers first, and `syms` is the handle that `mod_syms` keeps.
pub record Module : Type 0 where
  pub address : ℕ
  pub name : Option Text
  pub desc : Option Text
  pub init : Option Status
  pub registers : Registrations
  pub syms : ℕ

-- The dynamic linker: `dlopen` gives a handle, `dlsym` the description's address and contents.
pub record Linker : Type 0 where
  pub dlopen : Text → Option ℕ
  pub dlsym : ℕ → Option Module

-- `mlib_modules`, and the handles that are open.
pub record Loaded : Type 0 where
  pub modules : List Module
  pub handles : List ℕ

-- `mlib_module_loaded`: the pointers are compared.
unfoldable pub module_loaded : Module → List Module → Bool
module_loaded desc [] = false
module_loaded desc (other ∷ modules) =
    let further = module_loaded desc modules in
    if other.address == desc.address then true else further

-- `dlclose` of the handle opened last.
unfoldable pub dlclose : Loaded → Loaded
dlclose s = record s { handles = elim s.handles [ [] ↦ [] | handle ∷ handles ↦ handles ] }

module _ (h : ListHead) (os : Linker) where
  -- `mlib_load_module` behind `dlsym`. The linker gives a module that is loaded already the handle it
  -- has, so storing it again in the description changes nothing.
  unfoldable pub add_module : Module → Loaded → Status × Loaded
  add_module desc s = elim desc.name [
    | none ↦ (failed, dlclose s)
    | some name ↦ if module_loaded desc s.modules then (failed, s) else (elim desc.init [
      | some failed ↦ (failed, dlclose s)
      | some ok ↦ (ok, record s { modules = h.list_add_tail s.modules desc [] })
      | none ↦ (ok, record s { modules = h.list_add_tail s.modules desc [] })
    ])
  ]

  -- `mlib_load_module`
  unfoldable pub load_module : Text → Loaded → Status × Loaded
  load_module path s = elim (os.dlopen path) [
    | none ↦ (failed, s)
    | some handle ↦
        let opened = record s { handles = handle ∷ s.handles } in
        elim (os.dlsym handle) [
          | none ↦ (ok, opened)
          | some desc ↦ add_module (record desc { syms = handle }) opened
        ]
  ]

  -- `__mlib_load_module`, on the arguments behind the command's name: "Loaded" is printed where 0 is
  -- returned.
  unfoldable pub load_command : List Text → Loaded → Status × Loaded
  load_command [] s = (failed, s)
  load_command (path ∷ []) s = load_module path s
  load_command (path ∷ more ∷ args) s = (failed, s)

-- What the `init` of a module registers, where it is called.
unfoldable pub init_registers : Module → List Module → Registrations
init_registers desc modules = elim desc.name [
  | none ↦ nothing
  | some name ↦
      if module_loaded desc modules
      then nothing
      else (elim desc.init [ none ↦ nothing | some ret ↦ desc.registers ])
]

-- What `__mlib_load_module` has registered when it returns.
unfoldable pub registered : Linker → List Text → Loaded → Registrations
registered os [] s = nothing
registered os (path ∷ []) s = elim (os.dlopen path) [
  | none ↦ nothing
  | some handle ↦ elim (os.dlsym handle) [
    | none ↦ nothing
    | some desc ↦ init_registers desc s.modules
  ]
]
registered os (path ∷ more ∷ args) s = nothing

-- `__mlib_lsmod`, the lines behind the heading.
unfoldable pub module_lines : List Module → List (Option Text × Option Text)
module_lines [] = []
module_lines (other ∷ modules) = (other.name, other.desc) ∷ module_lines modules

unfoldable pub lsmod : List Text → Loaded → Status × List (Option Text × Option Text)
lsmod [] s = (ok, module_lines s.modules)
lsmod (arg ∷ args) s = (failed, [])
