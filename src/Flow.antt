-- ===== src/Flow.antt =====
-- What the examples in example/babylon/ ask of the graph library, which is not part of the program:
-- a graph is a list of vertices, and a run leaves each datum absent, empty or with a value. The
-- run itself is a parameter; `Settles` is the library's contract for it.
pub mod Start
pub mod Choice
pub mod Same
pub mod Conditions
pub mod Tests
use Prim.Native.String.{String}
use cpp_freshman.Prelude.{
  ℕ, Bool, true, false, Option, none, some, List, [], ◌∷◌, ◌≡◌, Bytes, if◌then◌else◌,
}

-- The types of the data in the examples. An `int` is its 32 bits.
pub data Value : Type 0 where
  text : Bytes → Value
  flag : Bool → Value
  int : ℕ → Value

-- A datum that no vertex has emitted, one that is ready and empty, and one with a value.
pub data Datum : Type 0 where
  absent : Datum
  empty : Datum
  held : Value → Datum

-- `named_depend(…).to(name).on(condition)`; a dependency that is declared with level 1 is optional.
pub record Depend : Type 0 where
  pub name : String
  pub condition : Option String
  pub optional : Bool

abbrev pub to : String → Depend
to name = record { name = name; condition = none; optional = false }

abbrev pub to_on : String → String → Depend
to_on name condition = record { name = name; condition = some condition; optional = false }

-- What `process` finds: the dependencies in the order of their declaration, with `none` for a null
-- pointer. It answers the values for `emits`, in order.
pub record VertexSpec : Type 0 where
  pub depends : List Depend
  pub emits : List String
  pub process : List (Option Value) → List Value

-- What a vertex can do: wait for a dependency, pass an essential one over as empty, or process.
pub data Inputs : Type 0 where
  waits : Inputs
  skips : Inputs
  inputs : List (Option Value) → Inputs

abbrev pub with_input : Option Value → Inputs → Inputs
with_input v waits = waits
with_input v skips = skips
with_input v (inputs vs) = inputs (v ∷ vs)

abbrev pub skip : Inputs → Inputs
skip waits = waits
skip skips = skips
skip (inputs vs) = skips

module _ (final : String → Datum) where
  -- The datum of a dependency, if it has no condition or its condition holds.
  abbrev pub target : Depend → Inputs → Inputs
  target d rest = elim (final d.name) [
    | absent ↦ waits
    | empty ↦ (if d.optional then with_input none rest else skip rest)
    | held v ↦ with_input (some v) rest
  ]

  abbrev pub unset : Depend → Inputs → Inputs
  unset d rest = if d.optional then with_input none rest else skip rest

  abbrev pub on_condition : Datum → Depend → Inputs → Inputs
  on_condition absent d rest = waits
  on_condition empty d rest = unset d rest
  on_condition (held (text t)) d rest = unset d rest
  on_condition (held (flag b)) d rest = if b then target d rest else unset d rest
  on_condition (held (int n)) d rest = unset d rest

  abbrev pub dependency : Depend → Inputs → Inputs
  dependency d rest = elim d.condition [
    | none ↦ target d rest
    | some c ↦ on_condition (final c) d rest
  ]

  abbrev pub gather : List Depend → Inputs
  gather [] = inputs []
  gather (d ∷ ds) = dependency d (gather ds)

  abbrev pub AreEmpty : List String → Type 0
  AreEmpty [] = Unit
  AreEmpty (name ∷ names) = (final name ≡ empty) × AreEmpty names

  abbrev pub AreHeld : List String → List Value → Type 0
  AreHeld [] vs = Unit
  AreHeld (name ∷ names) [] = Unit
  AreHeld (name ∷ names) (v ∷ vs) = (final name ≡ held v) × AreHeld names vs

  -- A vertex that has its dependencies has run, and its outputs are what `process` made of them; a
  -- vertex without an essential one has passed its outputs over as empty.
  abbrev pub HasRun : VertexSpec → Inputs → Type 0
  HasRun v waits = Unit
  HasRun v skips = AreEmpty v.emits
  HasRun v (inputs vs) = AreHeld v.emits (v.process vs)

  abbrev pub Settles : List VertexSpec → Type 0
  Settles [] = Unit
  Settles (v ∷ vs) = HasRun v (gather v.depends) × Settles vs
