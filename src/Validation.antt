-- ===== src/Validation.antt =====
-- The validators that the handlers share (pkg/manager/impl/validation/validation.go and
-- project_validator.go). A map is the list of its entries, in the order of one iteration.
pub mod Paging
pub mod Pages
mod Tests
use flyteadmin.Common.{
  arith, ◌≡◌, String, Result, ok, err, new_flyte_admin_error, invalid_argument, Option, some, none,
  Bool, true, false, ℕ, List, [], ◌∷◌, ◌>>=◌, ◌>>◌, str_eq, if◌then◌else◌, leb, length, not, ◌||◌,
  ◌&&◌, ◌==◌,
}

-- `core.ResourceType`.
pub data ResourceType : Type 0 where
  unspecified task workflow launch_plan dataset : ResourceType

-- `core.Identifier`.
pub record Identifier : Type 0 where
  pub resource_type : ResourceType
  pub project : String
  pub domain : String
  pub name : String
  pub version : String

-- `admin.NamedEntityIdentifier`.
pub record NamedEntityIdentifier : Type 0 where
  pub project : String
  pub domain : String
  pub name : String

-- A value of the type system of tasks: what `GetSimple()` gives, and the rest.
pub record LiteralType : Type 0 where
  pub simple : ℕ
  pub rest : List ℕ

pub record Variable : Type 0 where
  pub type_of : Option LiteralType
  pub description : String

-- A literal, and what `GetValue()` gives.
pub record Literal : Type 0 where
  pub value : Option (List ℕ)

pub data Behavior : Type 0 where
  default_value : Literal → Behavior
  required_value : Bool → Behavior

pub record Parameter : Type 0 where
  pub var : Option Variable
  pub behavior : Option Behavior

-- What the validators call of the libraries of Kubernetes and of the propeller.
pub record Libraries : Type 0 where
  pub is_qualified_name : String → Bool
  pub is_valid_label_value : String → Bool
  pub literal_type_for_literal : Literal → LiteralType
  pub are_types_castable : Option LiteralType → Option LiteralType → Bool
  -- `core.SimpleType_DATETIME`
  pub datetime : ℕ

abbrev pub invalid {ℓ} : {A : Type ℓ} → Result A
invalid = err (new_flyte_admin_error invalid_argument)

abbrev pub check : Bool → Result (Unit {0})
check true = ok tt
check false = invalid

-- `ValidateEmptyStringField`.
unfoldable pub validate_empty_string_field : String → Result (Unit {0})
validate_empty_string_field field =
    if str_eq field "" then err (new_flyte_admin_error invalid_argument) else ok tt

abbrev pub same_resource_type : ResourceType → ResourceType → Bool
same_resource_type unspecified unspecified = true
same_resource_type task task = true
same_resource_type workflow workflow = true
same_resource_type launch_plan launch_plan = true
same_resource_type dataset dataset = true
same_resource_type _ _ = false

unfoldable pub validate_identifier_fields_set : Identifier → Result (Unit {0})
validate_identifier_fields_set id = do
  validate_empty_string_field id.project
  validate_empty_string_field id.domain
  validate_empty_string_field id.name
  validate_empty_string_field id.version

-- `ValidateIdentifier`, with the identifier that is not nil.
unfoldable pub validate_identifier : Option Identifier → ResourceType → Result Identifier
validate_identifier none expected = invalid
validate_identifier (some id) expected =
    if not (same_resource_type expected id.resource_type)
    then invalid
    else (validate_identifier_fields_set id >>= λ u. ok id)

-- What is validated is passed on.
pub validate_identifier-same :
    (i id : Identifier) (t : ResourceType) → validate_identifier (some i) t ≡ ok id → i ≡ id
unfolding validate_identifier
validate_identifier-same i id t h = ground arith

pub validate_identifier_complete :
    (i id : Identifier) (t : ResourceType)
    → validate_identifier (some i) t ≡ ok id
    → (not (str_eq i.project "")
        && not (str_eq i.domain "")
        && not (str_eq i.name "")
        && not (str_eq i.version ""))
      ≡ true
unfolding validate_identifier validate_identifier_fields_set validate_empty_string_field
validate_identifier_complete i id t h = ground arith

unfoldable pub validate_active_launch_plan_request : NamedEntityIdentifier → Result (Unit {0})
validate_active_launch_plan_request id = do
  validate_empty_string_field id.project
  validate_empty_string_field id.domain
  validate_empty_string_field id.name

abbrev max_label_array_length : ℕ
max_label_array_length = 16

abbrev has_value : Option Literal → Bool
has_value none = false
has_value (some l) = elim l.value [ none ↦ false | some v ↦ true ]

abbrev pub var_type : Parameter → Option LiteralType
var_type p = elim p.var [ none ↦ none | some v ↦ v.type_of ]

abbrev pub get_required : Parameter → Bool
get_required p = elim p.behavior [
  | some (required_value b) ↦ b
  | some (default_value l) ↦ false
  | none ↦ false
]

abbrev has_type : Parameter → Bool
has_type p = elim (var_type p) [ none ↦ false | some t ↦ true ]

module _ (lib : Libraries) where
  unfoldable pub validate_labels_alphanumeric : List (String × String) → Result (Unit {0})
  validate_labels_alphanumeric [] = ok tt
  validate_labels_alphanumeric ((key, value) ∷ rest) = do
    check (lib.is_qualified_name key)
    check (lib.is_valid_label_value value)
    validate_labels_alphanumeric rest

  unfoldable pub validate_labels : Option (List (String × String)) → Result (Unit {0})
  validate_labels none = ok tt
  validate_labels (some []) = ok tt
  validate_labels (some (l ∷ labels)) = do
    check (leb (length (l ∷ labels)) max_label_array_length)
    validate_labels_alphanumeric (l ∷ labels)

  -- `validateLiteralMap`; a nil map is the empty one, and a nil literal is `none`.
  unfoldable pub validate_literal_map : List (String × Option Literal) → Result (Unit {0})
  validate_literal_map [] = ok tt
  validate_literal_map ((name, fixed_input) ∷ rest) = do
    check (not (str_eq name ""))
    check (has_value fixed_input)
    validate_literal_map rest

  -- The default has the type of the variable, and a variable without one is required.
  abbrev valid_behavior : Parameter → Bool
  valid_behavior p = elim p.behavior [
    | some (default_value l) ↦
        lib.are_types_castable (some (lib.literal_type_for_literal l)) (var_type p)
    | some (required_value b) ↦ b
    | none ↦ false
  ]

  unfoldable pub validate_parameter_map : List (String × Parameter) → Result (Unit {0})
  validate_parameter_map [] = ok tt
  validate_parameter_map ((name, p) ∷ rest) = do
    check (not (str_eq name ""))
    check (has_type p)
    check (valid_behavior p)
    validate_parameter_map rest

abbrev is_among : String → List String → Bool
is_among d [] = false
is_among d (e ∷ es) = str_eq e d || is_among d es

-- `ValidateProjectAndDomain`, with the states in the table of projects and the configured domains.
-- A project that is not found, or whose state is not the active one, 0, is refused.
unfoldable pub validate_project_and_domain :
    (String → Result ℕ) → List String → (project domain : String) → Result (Unit {0})
validate_project_and_domain project_state domains project domain = elim (project_state project) [
  | err e ↦ invalid
  | ok state ↦
      if not (state == 0) then invalid else if not (is_among domain domains) then invalid else ok tt
]
