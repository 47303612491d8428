-- ===== src/Net/Json.antt =====
-- helpers.py: typed access to JSON values.
use decomp_permuter_psyq.Prelude.{
  Bool, true, false, Option, none, some, List, [], ◌∷◌, ◌++◌, Result, ok, raised, bind,
  if◌then◌else◌,
}
use decomp_permuter_psyq.Prelude.Int.{ℤ, pos}
use decomp_permuter_psyq.Text.{Text, codes}
use decomp_permuter_psyq.Text.Equality.{same_text}

-- The values of `json.loads`; `F` stands for the floating-point numbers. An object is a `dict`.
mutual
  pub data Json (F : Type 0) : Type 0 where
    null : Json F
    bool : Bool → Json F
    int : ℤ → Json F
    float : F → Json F
    str : Text → Json F
    array : Items F → Json F
    object : Fields F → Json F

  pub data Items (F : Type 0) : Type 0 where
    nil : Items F
    cons : Json F → Items F → Items F

  pub data Fields (F : Type 0) : Type 0 where
    end : Fields F
    field : Text → Json F → Fields F → Fields F

-- the `ValueError`s: a value of another type (what it is, the type that is wanted, its type), and a
-- member that is not there
pub data JsonError : Type 0 where
  wrong_type : Text → Text → Text → JsonError
  missing : Text → JsonError

module _ {F : Type 0} where
  -- `type(value).__name__`
  abbrev pub type_name : Json F → Text
  type_name null = codes "NoneType"
  type_name (bool b) = codes "bool"
  type_name (int n) = codes "int"
  type_name (float x) = codes "float"
  type_name (str s) = codes "str"
  type_name (array xs) = codes "list"
  type_name (object d) = codes "dict"

  -- `obj.get(prop)`
  abbrev pub get_field : Fields F → Text → Option (Json F)
  get_field end prop = none
  get_field (field key value rest) prop =
      if same_text key prop then some value else get_field rest prop

  -- `{**front, **back}` for keys that differ
  abbrev pub join_fields : Fields F → Fields F → Fields F
  join_fields end back = back
  join_fields (field key value front) back = field key value (join_fields front back)

  -- An integer, or a truth value, which is an `int` of Python too and counts as 1 or 0.
  abbrev pub int_value : Json F → Option ℤ
  int_value (int n) = some n
  int_value (bool true) = some (pos 1)
  int_value (bool false) = some (pos 0)
  int_value _ = none

-- A type `t` of the functions below: its name, the values that are instances, and for `float` the
-- conversion from an integer.
pub record Kind (F : Type 0) (T : Type 0) : Type 0 where
  pub name : Text
  pub instance_of : Json F → Option T
  pub from_int : Option (ℤ → T)

module _ {F : Type 0} where
  abbrev pub str_of : Json F → Option Text
  str_of (str s) = some s
  str_of _ = none

  abbrev pub bool_of : Json F → Option Bool
  bool_of (bool b) = some b
  bool_of _ = none

  abbrev pub float_of : Json F → Option F
  float_of (float x) = some x
  float_of _ = none

  abbrev pub fields_of : Json F → Option (Fields F)
  fields_of (object d) = some d
  fields_of _ = none

  abbrev pub int_kind : Kind F ℤ
  int_kind = record { name = codes "int"; instance_of = int_value; from_int = none }

  abbrev pub str_kind : Kind F Text
  str_kind = record { name = codes "str"; instance_of = str_of; from_int = none }

  abbrev pub bool_kind : Kind F Bool
  bool_kind = record { name = codes "bool"; instance_of = bool_of; from_int = none }

  abbrev pub dict_kind : Kind F (Fields F)
  dict_kind = record { name = codes "dict"; instance_of = fields_of; from_int = none }

  -- `of_int` is `float(n)`.
  abbrev pub float_kind : (ℤ → F) → Kind F F
  float_kind of_int = record {
    name = codes "float";
    instance_of = float_of;
    from_int = some of_int;
  }

-- `float(value)` for an integer, if `t` is `float`
abbrev pub widen : {T : Type 0} → Option (ℤ → T) → Option ℤ → Option T
widen none n = none
widen (some f) none = none
widen (some f) (some n) = some (f n)

module _ {F : Type 0} {T : Type 0} where
  unfoldable pub json_as_type : Text → Json F → Kind F T → Result JsonError T
  json_as_type what value t = elim (t.instance_of value) [
    | some v ↦ ok v
    | none ↦ elim (widen t.from_int (int_value value)) [
      | some v ↦ ok v
      | none ↦ raised (wrong_type what t.name (type_name value))
    ]
  ]

  unfoldable pub json_prop : Fields F → Text → Kind F T → Option T → Result JsonError T
  unfolding json_as_type
  json_prop obj prop t default = elim (get_field obj prop) [
    | some value ↦ json_as_type (codes "Member " ++ prop) value t
    | none ↦ elim default [ some v ↦ ok v | none ↦ raised (missing prop) ]
  ]

  unfoldable pub json_array : Items F → Kind F T → Result JsonError (List T)
  unfolding json_as_type
  json_array nil t = ok []
  json_array (cons elem rest) t =
      bind (json_as_type (codes "Array elements") elem t)
        λ v. bind (json_array rest t) λ vs. ok (v ∷ vs)

  unfoldable pub json_dict : Fields F → Kind F T → Result JsonError (List (Text × T))
  unfolding json_as_type
  json_dict end t = ok []
  json_dict (field key value rest) t =
      bind (json_as_type (codes "Dict entries") value t)
        λ v. bind (json_dict rest t) λ vs. ok ((key, v) ∷ vs)
