-- ===== src/Net/Permuters.antt =====
-- net/core.py: `PermuterData` and its form in JSON.
use decomp_permuter_psyq.Prelude.{◌≡◌, refl, Bool, none, some, List, [], ◌∷◌, Result, ok, bind}
use decomp_permuter_psyq.Prelude.Int.{ℤ}
use decomp_permuter_psyq.Text.{Text, codes}
use decomp_permuter_psyq.Text.Equality.{same_text}
use decomp_permuter_psyq.Net.Json.{
  Json, Fields, bool, int, float, str, object, end, field, JsonError, int_kind, str_kind, bool_kind,
  dict_kind, float_kind, json_prop, json_dict,
}

pub record PermuterData (F : Type 0) : Type 0 where
  pub base_score : ℤ
  pub base_hash : Text
  pub fn_name : Text
  pub filename : Text
  pub keep_prob : F
  pub need_profiler : Bool
  pub stack_differences : Bool
  pub randomization_weights : List (Text × F)
  pub compile_script : Text
  pub source : Text
  pub target_o_bin : Text

module _ {F : Type 0} where
  abbrev pub weight_fields : List (Text × F) → Fields F
  weight_fields [] = end
  weight_fields ((key, weight) ∷ rest) = field key (float weight) (weight_fields rest)

  abbrev pub permuter_data_to_json : PermuterData F → Fields F
  permuter_data_to_json perm = field (codes "base_score") (int perm.base_score) (
      field (codes "base_hash") (str perm.base_hash) (
        field (codes "fn_name") (str perm.fn_name) (
          field (codes "filename") (str perm.filename) (
            field (codes "keep_prob") (float perm.keep_prob) (
              field (codes "need_profiler") (bool perm.need_profiler) (
                field (codes "stack_differences") (bool perm.stack_differences) (
                  field (codes "randomization_weights")
                    (object (weight_fields perm.randomization_weights))
                    (field (codes "compile_script") (str perm.compile_script) end))))))))

module _ {F : Type 0} (of_int : ℤ → F) where
  -- The keyword arguments are evaluated in the order in which they are written.
  unfoldable pub permuter_data_from_json :
      Fields F → Text → Text → Result JsonError (PermuterData F)
  unfolding json_prop json_dict
  permuter_data_from_json obj source target_o_bin =
      bind (json_prop obj (codes "base_score") int_kind none) λ base_score.
        bind (json_prop obj (codes "base_hash") str_kind none) λ base_hash.
          bind (json_prop obj (codes "fn_name") str_kind none) λ fn_name.
            bind (json_prop obj (codes "filename") str_kind none) λ filename.
              bind (json_prop obj (codes "keep_prob") (float_kind of_int) none) λ keep_prob.
                bind (json_prop obj (codes "need_profiler") bool_kind none) λ need_profiler.
                  bind (json_prop obj (codes "stack_differences") bool_kind none)
                    λ stack_differences.
                      bind (json_prop obj (codes "compile_script") str_kind none) λ compile_script.
                        bind (json_prop obj (codes "randomization_weights") dict_kind (some end))
                          λ weights.
                            bind (json_dict weights (float_kind of_int)) λ randomization_weights.
                              ok (record {
                                base_score = base_score;
                                base_hash = base_hash;
                                fn_name = fn_name;
                                filename = filename;
                                keep_prob = keep_prob;
                                need_profiler = need_profiler;
                                stack_differences = stack_differences;
                                randomization_weights = randomization_weights;
                                compile_script = compile_script;
                                source = source;
                                target_o_bin = target_o_bin;
                              })

  pub json_dict-weight_fields :
      (weights : List (Text × F))
      → json_dict (weight_fields weights) (float_kind of_int) ≡ ok weights
  unfolding json_dict
  json_dict-weight_fields [] = refl
  json_dict-weight_fields ((key, weight) ∷ rest) = rw (json_dict-weight_fields rest) refl

  -- What is written is read back, also behind the members `type` and `permuter` that a message adds.
  pub permuter_data_from_json-to_json :
      (perm : PermuterData F) (type permuter : Json F)
      → permuter_data_from_json
          (field
            (codes "type")
            type
            (field (codes "permuter") permuter (permuter_data_to_json perm)))
          perm.source
          perm.target_o_bin
        ≡ ok perm
  unfolding permuter_data_from_json same_text
  permuter_data_from_json-to_json perm type permuter =
      rw (json_dict-weight_fields perm.randomization_weights) refl
