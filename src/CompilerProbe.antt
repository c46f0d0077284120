-- ===== src/CompilerProbe.antt =====
-- Lab_2/LINUX/cmake-build-debug/CMakeFiles/3.16.5/CompilerIdC/CMakeCCompilerId.c: a program whose
-- text names the compiler, the platform and the language that it is compiled with. The build keeps
-- a second copy of it under Lab_5. What the compiler predefines is an environment of macros, each
-- with its value, a number; `none` is a macro that is not defined.
pub mod Digits
pub mod Cpp
pub mod Vendors
pub mod Families
pub mod Platforms
pub mod Program
pub mod Reading
pub mod Choice
pub mod Running
mod Tests
use Prim.Native.String.{String}
use mathlib.Core.Option
use labs_spo.Common.{ℕ, Bool, true, false, Option, none, some, if◌then◌else◌, List, [], ◌∷◌}
use labs_spo.Common.Bytes.{Bytes}

abbrev pub Env : Type 0
Env = String → Option ℕ

-- `defined(m)`
abbrev pub defined : Env → String → Bool
defined env m = elim (env m) [ none ↦ false | some _ ↦ true ]

-- A macro in the condition of an `#if`: one that is not defined is 0.
abbrev pub value : Env → String → ℕ
value env m = elim (env m) [ none ↦ 0 | some n ↦ n ]

-- A macro in an expression: one that is not defined is an undeclared name, an error (`none`).
abbrev pub with_macro : Env → String → (ℕ → ℕ) → Option ℕ
with_macro env m f = Option.map f (env m)

-- `DEC(n)` or `HEX(n)`, by the value of `n`.
pub data Number : Type 0 where
  dec : Option ℕ → Number
  hex : Option ℕ → Number

-- Four components of a version: which of MAJOR, MINOR, PATCH and TWEAK are defined.
pub record Version : Type 0 where
  pub major : Option Number
  pub minor : Option Number
  pub patch : Option Number
  pub tweak : Option Number

-- What a branch of the chain defines: COMPILER_ID, SIMULATE_ID, and the versions.
pub record Identity : Type 0 where
  pub compiler_id : Bytes
  pub simulate_id : Option Bytes
  pub version : Version
  pub internal : Option Number
  pub simulated : Version

abbrev pub no_version : Version
no_version = record { major = none; minor = none; patch = none; tweak = none }

-- A branch that defines COMPILER_ID and the first three components only, or no component.
abbrev pub plain : Bytes → Version → Identity
plain name version = record {
  compiler_id = name;
  simulate_id = none;
  version = version;
  internal = none;
  simulated = no_version;
}

abbrev pub three : Number → Number → Number → Version
three major minor patch = record {
  major = some major;
  minor = some minor;
  patch = some patch;
  tweak = none;
}

abbrev pub only_if {ℓ} : {A : Type ℓ} → Bool → A → Option A
only_if b a = if b then some a else none

-- A branch of an `#if`: its condition, and what it defines.
pub record Branch : Type 0 where
  pub test : Env → Bool
  pub defines : Env → Identity
