-- ===== src/Config/Process.antt =====
-- The process that the functions of lf-src/lf-include/utils.hpp run in: its files, its environment
-- and the two `static int counter`s.
use lf_autoware.Base.{
  ℕ, ◌≡◌, ◌≢◌, Bool, true, Option, some, ◌++◌, Text, codes, text_eq, text_eq_refl, eq_of_text_eq,
  to_string, to_string-injective, if◌then◌else◌, arith,
}
use mathlib.Core.List.{append_cancel_left, append_cancel_right}

pub record Process : Type 0 where
  pub file : Text → Option Text
  pub can_write : Text → Bool
  pub env : Text → Option Text
  pub pid : ℕ
  pub params_counter : ℕ  -- of `_rewrite_yaml_as_global`
  pub resolved_counter : ℕ  -- of `resolve_yaml_vars`

-- "/tmp/lf_params_" + std::to_string(getpid()) + "_" + std::to_string(counter) + ".yaml"
unfoldable pub params_path : ℕ → ℕ → Text
params_path pid n =
    codes "/tmp/lf_params_" ++ (to_string pid ++ (codes "_" ++ (to_string n ++ codes ".yaml")))

-- The same with "/tmp/lf_resolved_".
unfoldable pub resolved_path : ℕ → ℕ → Text
resolved_path pid n =
    codes "/tmp/lf_resolved_" ++ (to_string pid ++ (codes "_" ++ (to_string n ++ codes ".yaml")))

-- std::ofstream out(path); out << content; a file that cannot be opened stays as it is.
unfoldable pub write_file : Text → Text → Process → Process
write_file path content w =
    if w.can_write path
    then record w { file = λ q. if text_eq q path then some content else w.file q }
    else w

pub params_path-injective : (pid m n : ℕ) → params_path pid m ≡ params_path pid n → m ≡ n
unfolding params_path
params_path-injective pid m n e = to_string-injective m n (
    append_cancel_right (to_string m) (to_string n) (codes ".yaml") (
      append_cancel_left (codes "_") _ _ (
        append_cancel_left (to_string pid) _ _
          (append_cancel_left (codes "/tmp/lf_params_") _ _ e))))

pub file-write_file_ne :
    (path content q : Text) (w : Process) → q ≢ path → (write_file path content w).file q ≡ w.file q
unfolding write_file
file-write_file_ne path content q w h = ground (arith, eq_of_text_eq q path)

pub file-write_file_self :
    (path content : Text) (w : Process)
    → w.can_write path ≡ true
    → (write_file path content w).file path ≡ some content
unfolding write_file
file-write_file_self path content w h = ground (arith, text_eq_refl path)
