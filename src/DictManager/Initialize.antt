-- ===== src/DictManager/Initialize.antt =====
-- `DictManager::initialize` of example/brpc/plugins/dict/dict_manager.cpp. The property tree that the
-- XML reader makes is a parameter.
use mathlib.Core.List.{append-nil, append_assoc}
use cpp_freshman.Prelude.{
  ◌∙◌, Option, none, some, List, [], ◌∷◌, ◌++◌, ◌≡◌, refl, Bytes, ascii, same_text, same_text_iff,
  if◌then◌else◌, Bool-cases, inl, inr, arith, ◌⊎◌, ◌↔◌, Option-cases,
}

-- `DictConfig`.
pub record DictConfig : Type 0 where
  pub file_path : Bytes
  pub dict_name : Bytes
  pub generator_name : Bytes

-- A child of a property tree: its name, and `get<std::string>`, which throws where there is nothing.
pub record Child : Type 0 where
  pub first : Bytes
  pub get : Bytes → Option Bytes

-- The three fields; an exception that leaves `initialize`, which is `noexcept`, ends the process.
unfoldable pub read_config : Child → Option DictConfig
read_config dict = elim (dict.get (ascii "file")) [
  | none ↦ none
  | some file ↦ elim (dict.get (ascii "name")) [
    | none ↦ none
    | some name ↦ elim (dict.get (ascii "type")) [
      | none ↦ none
      | some type ↦ some (record { file_path = file; dict_name = name; generator_name = type })
    ]
  ]
]

-- The loop over the children of "dicts".
unfoldable pub read_configs : List Child → List DictConfig → Option (List DictConfig)
unfolding read_config same_text
read_configs [] vect = some vect
read_configs (dict ∷ rest) vect =
    let skipped = read_configs rest vect in
    let read : Option (List DictConfig) = elim (read_config dict) [
      | none ↦ none
      | some conf ↦ read_configs rest (vect ++ conf ∷ [])
    ] in
    if same_text dict.first (ascii "dict") then read else skipped

-- `initialize`, given the children of "dicts", or nothing where the file or that child is missing.
unfoldable pub initialize_dicts : Option (List Child) → List DictConfig → Option (List DictConfig)
unfolding read_configs
initialize_dicts none vect = none
initialize_dicts (some children) vect = read_configs children vect

abbrev pub IsDict : Child → Type 0
IsDict c = c.first ≡ ascii "dict"

-- The fields of a child.
pub record HasConfig (c : Child) (conf : DictConfig) : Type 0 where
  pub file_at : c.get (ascii "file") ≡ some conf.file_path
  pub name_at : c.get (ascii "name") ≡ some conf.dict_name
  pub type_at : c.get (ascii "type") ≡ some conf.generator_name

-- A child without one of them.
abbrev pub LacksField : Child → Type 0
LacksField c =
    (c.get (ascii "file") ≡ none) ⊎ (c.get (ascii "name") ≡ none) ⊎ (c.get (ascii "type") ≡ none)

-- The children named "dict" have these configurations, in order, among children of other names.
pub data Configures : List Child → List DictConfig → Type 0 where
  no_child : Configures [] []
  dict_child :
      {c : Child} {conf : DictConfig} {cs : List Child} {confs : List DictConfig}
      → IsDict c
      → HasConfig c conf
      → Configures cs confs
      → Configures (c ∷ cs) (conf ∷ confs)
  other_child :
      {c : Child} {cs : List Child} {confs : List DictConfig}
      → ¬ IsDict c
      → Configures cs confs
      → Configures (c ∷ cs) confs

-- One of the children named "dict" is without a field.
pub data Breaks : List Child → Type 0 where
  breaks_here : {c : Child} {cs : List Child} → IsDict c → LacksField c → Breaks (c ∷ cs)
  breaks_later : {c : Child} {cs : List Child} → Breaks cs → Breaks (c ∷ cs)

read_config-HasConfig :
    (c : Child) (conf : DictConfig) → HasConfig c conf → read_config c ≡ some conf
unfolding read_config
read_config-HasConfig c conf h = rw (read_config, h.file_at, h.name_at, h.type_at) refl

read_config-LacksField : (c : Child) → LacksField c → read_config c ≡ none
unfolding read_config
read_config-LacksField c h = ground arith

read_configs-Configures :
    {cs : List Child} {confs : List DictConfig} (vect : List DictConfig)
    → Configures cs confs
    → read_configs cs vect ≡ some (vect ++ confs)
unfolding read_configs
read_configs-Configures vect no_child = rw append-nil refl
read_configs-Configures vect (dict_child {c} {conf} {cs} {confs} d k r) =
    rw ((same_text_iff c.first (ascii "dict")).1 d, read_config-HasConfig c conf k)
      (read_configs-Configures (vect ++ conf ∷ []) r ∙ rw append_assoc refl)
read_configs-Configures vect (other_child {c} d r) =
    elim (Bool-cases (same_text c.first (ascii "dict"))) [
      | inl e ↦ absurd (d ((same_text_iff c.first (ascii "dict")).0 e))
      | inr e ↦ rw e (read_configs-Configures vect r)
    ]

read_configs-Breaks :
    {cs : List Child} (vect : List DictConfig) → Breaks cs → read_configs cs vect ≡ none
unfolding read_configs
read_configs-Breaks vect (breaks_here {c} d l) =
    rw ((same_text_iff c.first (ascii "dict")).1 d, read_config-LacksField c l) refl
read_configs-Breaks vect (breaks_later {c} {cs} b) =
    elim (Bool-cases (same_text c.first (ascii "dict"))) [
      | inl e ↦ elim (Option-cases (read_config c)) [
        | inl f ↦ rw (e, f) refl
        | inr (conf, f) ↦ rw (e, f) (read_configs-Breaks (vect ++ conf ∷ []) b)
      ]
      | inr e ↦ rw e (read_configs-Breaks vect b)
    ]

LacksField-read_config : (c : Child) → read_config c ≡ none → LacksField c
unfolding read_config
LacksField-read_config c e = ground arith

Breaks-read_configs :
    (cs : List Child) (vect : List DictConfig) → read_configs cs vect ≡ none → Breaks cs
unfolding read_configs
Breaks-read_configs [] vect e = ground arith
Breaks-read_configs (c ∷ cs) vect e = elim (Bool-cases (same_text c.first (ascii "dict"))) [
  | inl f ↦ elim (Option-cases (read_config c)) [
    | inl g ↦ breaks_here ((same_text_iff c.first (ascii "dict")).0 f) (LacksField-read_config c g)
    | inr (conf, g) ↦ breaks_later (Breaks-read_configs cs (vect ++ conf ∷ []) (rw (f, g) at e))
  ]
  | inr f ↦ breaks_later (Breaks-read_configs cs vect (rw f at e))
]

-- The list of configurations grows by those of the children named "dict", in their order, whatever
-- other children stand between them.
pub initialize_dicts-Configures :
    (cs : List Child) (confs vect : List DictConfig)
    → Configures cs confs
    → initialize_dicts (some cs) vect ≡ some (vect ++ confs)
unfolding initialize_dicts
initialize_dicts-Configures cs confs vect h = read_configs-Configures vect h

-- The process ends just where a child named "dict" is without one of its three fields.
pub initialize_dicts-Breaks :
    (cs : List Child) (vect : List DictConfig)
    → (initialize_dicts (some cs) vect ≡ none) ↔ Breaks cs
unfolding initialize_dicts
initialize_dicts-Breaks cs vect =
    (λ e. Breaks-read_configs cs vect e, λ b. read_configs-Breaks vect b)
